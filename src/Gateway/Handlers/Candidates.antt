-- ===== src/Gateway/Handlers/Candidates.antt =====
-- The candidates that a plan or a stream of gateway.go and routing.go (internal/httpapi) calls are
-- those that the policy permits.
use mathlib.Core.Path.{subst}
use phlox_gw.Common.{
  All-map, sym, ap, ◌∙◌, ◌++◌, ◌≤◌, ℕ, suc, ◌≡◌, refl, inl, inr, Bool, true, false, Option, none,
  some, List, [], ◌∷◌, All, arith, Bool-cases, Option-cases,
}
use phlox_gw.Common.Text.{Text}
use phlox_gw.Store.Types.{Time, RoutedModel, User, ApiKey, Db}
use phlox_gw.Gateway.Policy.{
  PolicyStore, check_api_key_policy, check_budget, check_rate_limits, check_route_admission,
}
use phlox_gw.Gateway.Outside.{Outside, Request, Dialect}
use phlox_gw.Gateway.Execution.{Attempt, passed, gate, supported}
use phlox_gw.Gateway.Execution.Trace.{
  Gate-cases, Before, replay, IsTrace, no_calls, opens, retries, stops, leaves,
}
use phlox_gw.Gateway.Handlers.{select_stream}

-- The route has a supported protocol and passes the checks of the policy in a database at a moment.
pub record IsPermitted (out : Outside) (user : User) (key : ApiKey) (seen : Db) (moment : ℕ)
    (r : RoutedModel) : Type 0 where
  pub is_supported : supported r ≡ true
  pub admitted :
      check_route_admission (out.reads seen (out.clock moment)) (out.clock moment) user key r ≡ none

pub all_checks :
    (store : PolicyStore) (now : Time) (user : User) (key : ApiKey) (r : RoutedModel)
    → check_api_key_policy store now key r ≡ none
    → check_budget store now user r.model ≡ none
    → check_rate_limits store now user r ≡ none
    → check_route_admission store now user key r ≡ none
unfolding check_route_admission
all_checks store now user key r e f g = rw (e, check_route_admission, f, g) refl

module _ (out : Outside) (req : Request) where
  gate-supported :
      (later : Bool) (r : RoutedModel) (db : Db) (t : ℕ)
      → gate out req later r db t ≡ passed
      → supported r ≡ true
  unfolding gate
  gate-supported later r db t h = ground arith

  gate_admitted :
      (r : RoutedModel) (db : Db) (t : ℕ)
      → gate out req true r db t ≡ passed
      → check_route_admission (out.reads db (out.clock t)) (out.clock t) req.user req.key r ≡ none
  unfolding gate
  gate_admitted r db t h =
      elim (Option-cases
        (check_route_admission (out.reads db (out.clock t)) (out.clock t) req.user req.key r)) [
          | inl e ↦ e
          | inr (d, e) ↦ let h' = rw e at h in absurd (ground arith)
        ]

  gate-IsPermitted :
      (r : RoutedModel) (db : Db) (t : ℕ)
      → gate out req true r db t ≡ passed
      → IsPermitted out req.user req.key db t r
  gate-IsPermitted r db t h = record {
    is_supported = gate-supported true r db t h;
    admitted = gate_admitted r db t h;
  }

  -- A call to a route that was permitted when the turn of its candidate opened: in the database that
  -- the calls before the turn left. Since then only that route was called.
  pub record WasPermitted (d : Dialect) (db : Db) (a : Attempt) (xs : List Attempt) : Type 0 where
    pub turn : List Attempt
    pub earlier : List Attempt
    pub split : xs ≡ turn ++ earlier
    pub same_route : All (λ (b : Attempt). b.route ≡ a.route) turn
    pub checked : ℕ
    pub in_time : checked ≤ a.moment
    pub permitted : IsPermitted out req.user req.key (replay out req d db earlier) checked a.route

  -- All calls, the latest first.
  abbrev pub ArePermitted : Dialect → Db → List Attempt → Type 0
  ArePermitted d db [] = Unit
  ArePermitted d db (a ∷ xs) = WasPermitted d db a xs × ArePermitted d db xs

  -- Before the turn of the first candidate ends, all candidates are left and no call was made.
  IsTrace_untouched :
      {d : Dialect} {cs : List RoutedModel} {db : Db} {left : List RoutedModel} {k : ℕ}
      {xs : List Attempt}
      → IsTrace out req d cs db false left k xs
      → (left ≡ cs) × (xs ≡ [])
  IsTrace_untouched no_calls = (refl, refl)
  IsTrace_untouched (retries a t f r b n s) = absurd (no_nil (IsTrace_untouched t).1)
    where
      no_nil : {b : Attempt} {ys : List Attempt} → (b ∷ ys) ≡ [] → ⊥
      no_nil e = ground arith
  IsTrace_untouched (stops t f r) = absurd (no_nil (IsTrace_untouched t).1)
    where
      no_nil : {b : Attempt} {ys : List Attempt} → (b ∷ ys) ≡ [] → ⊥
      no_nil e = ground arith

  head_same : {x y : RoutedModel} {xs ys : List RoutedModel} → (x ∷ xs) ≡ (y ∷ ys) → x ≡ y
  head_same e = cc

  opened-WasPermitted :
      (d : Dialect) (first : RoutedModel) (rest : List RoutedModel) (db : Db)
      → IsPermitted out req.user req.key db 0 first
      → (later : Bool) (left : List RoutedModel) (a : Attempt) (xs : List Attempt)
      → IsTrace out req d (first ∷ rest) db later (a.route ∷ left) 0 xs
      → gate out req later a.route (replay out req d db xs) a.moment ≡ passed
      → WasPermitted d db a xs
  opened-WasPermitted d first rest db p true left a xs t g = record {
    turn = [];
    earlier = xs;
    split = refl;
    same_route = tt;
    checked = a.moment;
    in_time = omega arith;
    permitted = gate-IsPermitted a.route (replay out req d db xs) a.moment g;
  }
  opened-WasPermitted d first rest db p false left a xs t g =
      let (all, none_made) = IsTrace_untouched t in
      record {
        turn = [];
        earlier = [];
        split = none_made;
        same_route = tt;
        checked = 0;
        in_time = omega arith;
        permitted = subst (IsPermitted out req.user req.key db 0) (sym (head_same all)) p;
      }

  retried-WasPermitted :
      (d : Dialect) (db : Db) (a b : Attempt) (xs : List Attempt)
      → WasPermitted d db b xs
      → a.route ≡ b.route
      → Before a.moment b
      → WasPermitted d db a (b ∷ xs)
  retried-WasPermitted d db a b xs w e before =
      let in_time = w.in_time in
      record {
        turn = b ∷ w.turn;
        earlier = w.earlier;
        split = ap (λ ys. b ∷ ys) w.split;
        same_route = (
          sym e,
          All-map _ _ (λ (c : Attempt) (h : c.route ≡ b.route). h ∙ sym e) w.turn w.same_route,
        );
        checked = w.checked;
        in_time = omega (arith, in_time, before);
        permitted =
            subst (IsPermitted out req.user req.key (replay out req d db w.earlier) w.checked)
              (sym e) w.permitted;
      }

  pub trace-ArePermitted :
      (d : Dialect) (first : RoutedModel) (rest : List RoutedModel) (db : Db)
      → IsPermitted out req.user req.key db 0 first
      → {later : Bool} {left : List RoutedModel} {k : ℕ} {xs : List Attempt}
      → IsTrace out req d (first ∷ rest) db later left k xs
      → ArePermitted d db xs
  trace-ArePermitted d first rest db p no_calls = tt
  trace-ArePermitted d first rest db p (opens {later = l} {rs = left} {xs = xs} a t f b n g) = (
    opened-WasPermitted d first rest db p l left a xs t g,
    trace-ArePermitted d first rest db p t,
  )
  trace-ArePermitted d first rest db p (retries {b = b} {xs = xs} a t f r h n s) =
      let more = trace-ArePermitted d first rest db p t in
      (retried-WasPermitted d db a b xs more.0 s h.0, more)
  trace-ArePermitted d first rest db p (stops t f r) = trace-ArePermitted d first rest db p t
  trace-ArePermitted d first rest db p (leaves m t f b g) = trace-ArePermitted d first rest db p t

  chosen-IsPermitted :
      (db : Db) (m n : ℕ) (r x : RoutedModel)
      → ◌≡◌ {A = Option (ℕ × RoutedModel)} (some (m, r)) (some (n, x))
      → IsPermitted out req.user req.key db m r
      → IsPermitted out req.user req.key db n x
  chosen-IsPermitted db m n r x e p =
      let moments : m ≡ n = cc in
      let routes : r ≡ x = cc in
      subst (λ k. IsPermitted out req.user req.key db k x) moments
        (subst (IsPermitted out req.user req.key db m) routes p)

  select_later-IsPermitted :
      (nobody : Text) (alone : Bool) (db : Db) (t : ℕ) (rs : List RoutedModel) (m : ℕ)
      (r : RoutedModel)
      → (select_stream out req nobody alone true db t rs).1 ≡ some (m, r)
      → IsPermitted out req.user req.key db m r
  unfolding select_stream
  select_later-IsPermitted nobody alone db t [] m r e = absurd (ground arith)
  select_later-IsPermitted nobody alone db t (c ∷ cs) m r e =
      elim (Gate-cases (gate out req true c db t)) [
        | inl g ↦
            select_later-IsPermitted nobody alone db (suc t) cs m r (rw (g, select_stream) at e)
        | inr (inl (s, x, y, g)) ↦
            select_later-IsPermitted nobody alone db (suc t) cs m r (rw (g, select_stream) at e)
        | inr (inr g) ↦
            chosen-IsPermitted db t m c r (rw (g, select_stream) at e) (gate-IsPermitted c db t g)
      ]

  -- A candidate that is chosen for a stream: the check of the first one was made at the moment 0.
  pub select_first-IsPermitted :
      (nobody : Text) (alone : Bool) (db : Db) (first : RoutedModel) (rest : List RoutedModel)
      (m : ℕ) (r : RoutedModel)
      → IsPermitted out req.user req.key db 0 first
      → (select_stream out req nobody alone false db 0 (first ∷ rest)).1 ≡ some (m, r)
      → IsPermitted out req.user req.key db m r
  unfolding select_stream
  select_first-IsPermitted nobody alone db first rest m r p e =
      elim (Gate-cases (gate out req false first db 0)) [
        | inl g ↦ select_later-IsPermitted nobody alone db 1 rest m r (rw (g, select_stream) at e)
        | inr (inl (s, x, y, g)) ↦ elim (Bool-cases alone) [
          | inl a ↦ let e' = rw (g, select_stream, a) at e in absurd (ground arith)
          | inr a ↦
              select_later-IsPermitted nobody alone db 1 rest m r (rw (g, select_stream, a) at e)
        ]
        | inr (inr g) ↦ chosen-IsPermitted db 0 m first r (rw (g, select_stream) at e) p
      ]
