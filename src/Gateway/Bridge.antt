-- ===== src/Gateway/Bridge.antt =====
-- The translations between the protocols of the providers (bridge_openai_anthropic.go of
-- internal/httpapi).
pub mod Messages
pub mod Turns
pub mod Requests
pub mod Answers
pub mod Retries
pub mod Calls
pub mod Events
pub mod Pieces
pub mod Stream
use phlox_gw.Common.{ℕ, List, ◌++◌}
use phlox_gw.Common.Int.{ℤ}
use phlox_gw.Common.Text.{Text}
use phlox_gw.Gateway.Json.{Json, Codec}
use phlox_gw.Gateway.Fields

-- A value, or the text of an error.
pub data Translated (A : Type 0) : Type 0 where
  done : A → Translated A
  failed : Text → Translated A

abbrev pub then_translate :
    {A : Type 0} {B : Type 0} → Translated A → (A → Translated B) → Translated B
then_translate (done a) f = f a
then_translate (failed e) f = failed e

-- What the translations have from outside: encoding/json with the texts of its errors, the first
-- value that a json.Decoder reads (a failure carries its error), the integer part of a number, and
-- the ids of requestID in the order in which they are drawn.
pub record Outer : Type 0 where
  pub codec : Codec
  pub decode : Text → Translated Json
  pub marshal_error : Json → Text
  pub unmarshal_error : Text → Text
  pub whole : Text → ℤ
  pub fresh : ℕ → Text
