-- ===== src/Eventstore/Rocksdb/Workers.antt =====
-- ReadPositions of eventstore/rocksdb/reader.go: the workers' shares are the keys.
use event_analysis.Prelude.{
  ℕ, zero, suc, ◌+◌, ◌-◌, ◌*◌, ◌/◌, ◌≤◌, ◌<◌, ◌≡◌, min, refl, sym, ap, ◌∙◌, inl, inr, arith,
}
use event_analysis.Prelude.{
  List, [], ◌∷◌, ◌++◌, map, length, take, drop, Option, some, ok, leb, Bool-cases, leb→le, le→leb,
  take-append-drop, drop-drop, take-min, length-drop,
}
use event_analysis.Eventstore.Rocksdb.{Library, worker_gets, all_gets}
use mathlib.Core.List.{map-append}
use native.Mathlib.Nat.{mod-lt, div-add-mod', suc-mul, zero-mul, mul_comm}

drop_all : {A : Type 0} (n : ℕ) (xs : List A) → length xs ≤ n → drop n xs ≡ []
drop_all zero [] h = refl
drop_all zero (x ∷ xs) h = absurd (omega (arith, h))
drop_all (suc n) [] h = refl
drop_all (suc n) (x ∷ xs) h = drop_all n xs (omega (arith, h))

shares_cover : (n c : ℕ) → 0 < c → n ≤ 0 + c * ((n + c - 1) / c)
shares_cover n c some_workers = omega (
  arith,
  div-add-mod' (n + c - 1) c,
  mod-lt (n + c - 1) some_workers,
  mul_comm c ((n + c - 1) / c),
)

module _ (lib : Library) (db : lib.Db) (value : List ℕ → Option (List ℕ))
    (multi_gets : (keys : List (List ℕ)) → lib.multi_get db keys ≡ some (map value keys)) where
  worker_gets-map :
      (keys : List (List ℕ)) (per_worker workers lo : ℕ)
      → length keys ≤ lo + workers * per_worker
      → worker_gets lib db keys per_worker workers lo ≡ ok (map value (drop lo keys))
  unfolding worker_gets
  worker_gets-map keys per_worker zero lo h =
      ap (λ t. ok (map value t)) (sym (drop_all lo keys (omega (arith, h, zero-mul per_worker))))
  worker_gets-map keys per_worker (suc workers) lo h = elim (Bool-cases (leb (length keys) lo)) [
    | inl behind ↦
        rw behind (ap (λ t. ok (map value t)) (sym (drop_all lo keys (leb→le _ _ behind))))
    | inr within ↦
        rw
          (
            within,
            share,
            multi_gets (take per_worker (drop lo keys)),
            worker_gets-map keys per_worker workers (lo + per_worker)
                (omega (arith, h, suc-mul workers per_worker)),
          )
          (ap ok (
            sym (map-append value (take per_worker (drop lo keys)) (drop (lo + per_worker) keys))
            ∙ ap (map value) (
                ap (λ t. take per_worker (drop lo keys) ++ t) (sym (drop-drop lo per_worker keys))
                ∙ take-append-drop per_worker (drop lo keys))))
  ]
    where
      share :
          take (min (lo + per_worker) (length keys) - lo) (drop lo keys)
          ≡ take per_worker (drop lo keys)
      share =
          ap (λ t. take t (drop lo keys)) (omega (arith, length-drop lo keys))
          ∙ take-min per_worker (drop lo keys)

  -- For a database whose batched read of keys gives each key's value: the values that `ReadPositions`
  -- collects for any keys are the values of the keys in order, for any concurrency.
  pub all_gets-map :
      (concurrency : ℕ) (keys : List (List ℕ))
      → all_gets lib db concurrency keys ≡ ok (map value keys)
  unfolding all_gets
  all_gets-map concurrency keys = elim (Bool-cases (leb (min concurrency (length keys)) 1)) [
    | inl serial ↦ rw (serial, multi_gets keys) refl
    | inr parallel ↦ rw parallel (
        worker_gets-map keys _ _ 0 (
          shares_cover (length keys) (min concurrency (length keys))
            (ground (arith, le→leb (min concurrency (length keys)) 1))))
  ]
