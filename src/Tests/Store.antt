-- ===== src/Tests/Store.antt =====
-- The theorems on the store at concrete inputs, and runs of its definitions.
use phlox_gw.Common.{◌≡◌, refl, true, false, [], ◌∷◌, ◌↔◌, arith, sym, ◌∙◌}
use phlox_gw.Common.Text.{codes, text_eq, contains_byte}
use phlox_gw.Common.Text.Trim.{trim_space, space_front, space_back}
use phlox_gw.Common.Text.TrimLaws.{IsTrimmed}
use phlox_gw.Store.Types.{Db, RoutedModel, ok, err, not_found}
use phlox_gw.Store.Lists.{split_normalized_list, normalize_list}
use phlox_gw.Store.Lists.RoundTrip.{split_normalized_list-normalize_list}
use phlox_gw.Store.Clock.{recorded_in, format_time}
use phlox_gw.Store.Clock.Windows.{recorded_in_iff, recorded_in_first_second, ReachesText}
use phlox_gw.Store.Calendar.{month_bounds, format_rfc3339}
use phlox_gw.Store.Models.{resolve_model}
use phlox_gw.Store.Models.Resolve.{IsResolved, resolve_model-IsResolved}
use phlox_gw.Store.Models.Routes.{HasUniqueRoutes, resolve_model-route}
use phlox_gw.Tests.{at, noon, chat, slow, db, provider, model}
use mathlib.Core.List.{Memᴰ}

lists : split_normalized_list (codes " a,b \n,\tc") ≡ codes "a" ∷ codes "b" ∷ codes "c" ∷ []
unfolding split_normalized_list
lists = refl

split_normalized_list-normalize_list_example :
    split_normalized_list (normalize_list (codes " a,b \n,\tc"))
    ≡ split_normalized_list (codes " a,b \n,\tc")
split_normalized_list-normalize_list_example =
    split_normalized_list-normalize_list (codes " a,b \n,\tc")

february : month_bounds noon ≡ (at 1_769_904_000 0, at 1_772_323_200 0)
unfolding month_bounds
february = refl

noon_text : format_rfc3339 noon ≡ codes "2026-02-01T12:00:00Z"
unfolding format_rfc3339
noon_text = refl

-- Half a second and 510 milliseconds after noon.
fractions :
    ((format_time (at 3 500_000_000)).tail ≡ codes ".5Z")
    × ((format_time (at 3 510_000_000)).tail ≡ codes ".51Z")
unfolding format_time
fractions = (refl, refl)

recorded_in_iff_example :
    (recorded_in (at 10 0) (at 20 0) (at 10 5) ≡ true)
    ↔ (ReachesText (at 10 0) (at 10 5) × ¬ (ReachesText (at 20 0) (at 10 5)))
recorded_in_iff_example = recorded_in_iff (at 10 0) (at 20 0) (at 10 5) refl refl

recorded_in_first_second_example :
    (recorded_in (at 10 0) (at 20 0) (at 10 5) ≡ false)
    × (recorded_in (at 0 0) (at 10 0) (at 10 5) ≡ true)
recorded_in_first_second_example =
    recorded_in_first_second (at 0 0) (at 10 0) (at 20 0) (at 10 5) refl refl refl (omega arith)
      (omega arith) refl (omega arith)

abbrev resolved_chat : RoutedModel
resolved_chat = record { model = chat; provider = provider (codes "p1") }

resolved : resolve_model db (codes " chat/default ") ≡ ok resolved_chat
unfolding resolve_model trim_space contains_byte text_eq
resolved = refl

resolved_by_id :
    resolve_model db (codes "llama")
    ≡ ok (record { model = slow; provider = provider (codes "p2") })
unfolding resolve_model trim_space contains_byte text_eq
resolved_by_id = refl

resolve_model-IsResolved_example : IsResolved db (trim_space (codes " chat/default ")) resolved_chat
resolve_model-IsResolved_example =
    resolve_model-IsResolved db (codes " chat/default ") resolved_chat resolved

-- A name without a slash is looked up among the upstream model ids only.
abbrev aliased : Db
aliased = record db { models = model (codes "m3") (codes "p1") (codes "gpt") (codes "fast") ∷ [] }

unreachable : resolve_model aliased (codes "fast") ≡ err not_found
unfolding resolve_model trim_space contains_byte text_eq
unreachable = refl

chat_only : HasUniqueRoutes (record db { models = chat ∷ [] })
chat_only a b (Memᴰ.head e) (Memᴰ.head f) r = e ∙ sym f
chat_only a b (Memᴰ.tail k) l r = elim k [ ]
chat_only a b k (Memᴰ.tail l) r = elim l [ ]

IsTrimmed-route : IsTrimmed chat.route
unfolding space_front space_back
IsTrimmed-route = record { front = refl; back = refl }

slash : contains_byte chat.route 47 ≡ true
unfolding contains_byte
slash = refl

resolve_model-route_example :
    (r : RoutedModel) × (resolve_model (record db { models = chat ∷ [] }) chat.route ≡ ok r)
    × (r.model ≡ chat)
resolve_model-route_example =
    resolve_model-route (record db { models = chat ∷ [] }) chat (provider (codes "p1")) chat_only
      (Memᴰ.head refl) (Memᴰ.head refl) refl refl refl IsTrimmed-route slash
