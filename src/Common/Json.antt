-- ===== src/Common/Json.antt =====
-- JSON values. Numbers are natural numbers; the negative and fractional ones are left out.
use sozai.Common.{ℕ, Bool, List, [], ◌∷◌}
use sozai.Common.Text.{Text}

mutual
  pub data Json : Type 0 where
    null : Json
    bool : Bool → Json
    num : ℕ → Json
    str : Text → Json
    arr : Items → Json
    obj : Members → Json

  pub data Items : Type 0 where
    nil : Items
    cons : Json → Items → Items

  pub data Members : Type 0 where
    end : Members
    member : Text → Json → Members → Members

-- The object with these own properties.
abbrev pub members : List (Text × Json) → Members
members [] = end
members ((k, v) ∷ rest) = member k v (members rest)

abbrev pub object : List (Text × Json) → Json
object fields = obj (members fields)
