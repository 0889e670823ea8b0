-- ===== src/Client/Pending.antt =====
-- Transaction ids and the transactions that wait: `push_txn`, `refresh`, and the answers of the
-- server.
use devicekit.Prelude.{
  ℕ, ◌+◌, ◌-◌, ◌%◌, ◌^◌, ◌<◌, ◌≡◌, refl, ap, subst, sym, ◌∙◌, ◌⊎◌, inl, inr, Bool, true, false,
  Option, none, some, List, [], ◌∷◌, ◌++◌, ◌==◌, ==_iff, ltb, if◌then◌else◌, Option-cases, arith,
}
use devicekit.Prelude.Result.{Result, ok, err}
use devicekit.Client.Txns.{
  Chan, Entry, Txns, get, contains_key, insert, remove, HasDistinctKeys, remove-HasDistinctKeys,
  get-remove_self, get-remove_ne, remove_missing,
}
use devicekit.Client.State.{ReturnChanResult, failure, timeout, ClientLogic, Fault, error}
use devicekit.Client.Messages.{txn_exhaustion_message}
use devicekit.Client.Commands.{next_txn_id, find_txn_id, push_txn}
use devicekit.Client.Responses.{answer, resolve, timed_out, expire, refresh}

-- The ids that a search tries, the first at 0.
abbrev pub candidate : {V : Type 0} → ℕ → ClientLogic V → ℕ
candidate k s = (s.next_txn_id + k) % 2 ^ 64

abbrev IsTaken : {V : Type 0} → ℕ → ClientLogic V → Type 0
IsTaken k s = contains_key (candidate k s) s.pending_txns ≡ true

module _ {V : Type 0} (now : ℕ) (chan : Chan) (s : ClientLogic V) where
  abbrev pub Registered : Type 0
  Registered =
      (id : ℕ) × ((push_txn now chan s).1 ≡ ok id)
      × (id < 2 ^ 64)
      × (contains_key id s.pending_txns ≡ false)
      × ((push_txn now chan s).0.pending_txns ≡ insert id (now, chan) s.pending_txns)
      × ((push_txn now chan s).0.replied ≡ s.replied)

  abbrev pub Exhausted : Type 0
  Exhausted =
      ((push_txn now chan s).1 ≡ err error)
      × (IsTaken 0 s × IsTaken 1 s × IsTaken 2 s × IsTaken 3 s)
      × ((push_txn now chan s).0.pending_txns ≡ s.pending_txns)
      × ((push_txn now chan s).0.replied
          ≡ s.replied ++ ((chan, failure txn_exhaustion_message) ∷ []))

  -- A transaction is registered under a 64-bit id that no other waits under; only if four ids in a
  -- row are taken, with wrap-around, it is refused, and its channel is told so.
  pub push_txn_outcome : s.next_txn_id < 2 ^ 64 → Registered ⊎ Exhausted
  unfolding push_txn find_txn_id next_txn_id
  push_txn_outcome h = ground arith

abbrev has : ℕ → List ℕ → Bool
has k [] = false
has k (id ∷ ids) = if id == k then true else has k ids

get-remove_cases :
    (id k : ℕ) (m : Txns) (b : Bool)
    → HasDistinctKeys m
    → (if b then none else get k (remove id m))
      ≡ (if (if id == k then true else b) then none else get k m)
get-remove_cases id k m b h = ground (arith, get-remove_self id m h, get-remove_ne id k m)

has-timed_out : (now k : ℕ) (m : Txns) → contains_key k m ≡ false → has k (timed_out now m) ≡ false
unfolding contains_key timed_out
has-timed_out now k [] h = refl
has-timed_out now k ((j, (t, d)) ∷ m) h = ground (arith, has-timed_out now k m)

module _ {V : Type 0} where
  pub resolve-remove :
      (id : ℕ) (value : ReturnChanResult V) (s : ClientLogic V)
      → ((resolve id value s).0.pending_txns ≡ remove id s.pending_txns)
        × ((resolve id value s).1 ≡ ok tt)
  unfolding resolve
  resolve-remove id value s = elim (Option-cases (get id s.pending_txns)) [
    | inl e ↦ rw (e, answer) (sym (remove_missing id s.pending_txns e), refl)
    | inr ((t, d), e) ↦ rw (e, answer) (refl, refl)
  ]

  expire_step :
      (id : ℕ) (ids : List ℕ) (s : ClientLogic V)
      → expire (id ∷ ids) s ≡ expire ids (resolve id timeout s).0
  unfolding expire resolve
  expire_step id ids s = elim (Option-cases (get id s.pending_txns)) [
    | inl e ↦ rw (e, answer) refl
    | inr ((t, d), e) ↦ rw (e, answer) refl
  ]

  get-expire :
      (ids : List ℕ) (k : ℕ) (s : ClientLogic V)
      → HasDistinctKeys s.pending_txns
      → get k (expire ids s).0.pending_txns ≡ (if has k ids then none else get k s.pending_txns)
  get-expire [] k s h = unfold expire in refl
  get-expire (id ∷ ids) k s h =
      let t = (resolve id timeout s).0 in
      let left = (resolve-remove id timeout s).0 in
      ap (λ (r : ClientLogic V × Result (Unit {0}) Fault). get k r.0.pending_txns)
        (expire_step id ids s)
      ∙ get-expire ids k t
          (subst HasDistinctKeys (sym left) (remove-HasDistinctKeys id s.pending_txns h))
      ∙ ap (λ m. if has k ids then none else get k m) left
      ∙ get-remove_cases id k s.pending_txns (has k ids) h

-- What a refresh leaves of an entry.
abbrev pub kept : ℕ → Option Entry → Option Entry
kept now none = none
kept now (some (since, chan)) = if ltb 10_000 (now - since) then none else some (since, chan)

get-timed_out :
    (now k : ℕ) (m : Txns)
    → HasDistinctKeys m
    → (if has k (timed_out now m) then none else get k m) ≡ kept now (get k m)
unfolding timed_out get contains_key
get-timed_out now k [] h = refl
get-timed_out now k ((j, (t, d)) ∷ m) h =
    ground (arith, get-timed_out now k m h.1, has-timed_out now k m, ==_iff j k)

-- A refresh takes away exactly the transactions that have waited for more than ten seconds.
pub refresh-kept :
    {V : Type 0} (now k : ℕ) (s : ClientLogic V)
    → HasDistinctKeys s.pending_txns
    → get k (refresh now s).0.pending_txns ≡ kept now (get k s.pending_txns)
unfolding refresh
refresh-kept now k s h =
    get-expire (timed_out now s.pending_txns) k s h ∙ get-timed_out now k s.pending_txns h
