-- ===== src/Json.antt =====
-- The values that `json.loads` returns. A dictionary's items stand in its order and its keys are
-- different. A number that equals a natural one is `integer`, any other is its text.
use grc_audit_swarm.Base.{String, ℕ, Bool, Option, none, some, ◌==◌, if◌then◌else◌}

mutual
  pub data Json : Type 0 where
    null : Json
    boolean : Bool → Json
    integer : ℕ → Json
    other_number : String → Json
    text : String → Json
    array : Items → Json
    object : Members → Json

  pub data Items : Type 0 where
    nil : Items
    item : Json → Items → Items

  pub data Members : Type 0 where
    end : Members
    member : String → Json → Members → Members

-- `data.get(key)`
unfoldable pub get : String → Members → Option Json
get key end = none
get key (member k v ms) = if k == key then some v else get key ms
