-- ===== src/Gateway/Json.antt =====
-- The values that encoding/json decodes a body into (any, map[string]any, []any).
use phlox_gw.Common.{Bool, Option}
use phlox_gw.Common.Text.{Text}

mutual
  pub data Json : Type 0 where
    null : Json
    boolean : Bool → Json
    number : Text → Json
    string : Text → Json
    array : Items → Json
    object : Members → Json

  pub data Items : Type 0 where
    nil : Items
    cons : Json → Items → Items

  pub data Members : Type 0 where
    end : Members
    member : Text → Json → Members → Members

-- json.Unmarshal and json.Marshal; none is their error.
pub record Codec : Type 0 where
  pub unmarshal : Text → Option Json
  pub marshal : Json → Option Text
