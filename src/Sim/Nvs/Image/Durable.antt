-- ===== src/Sim/Nvs/Image/Durable.antt =====
-- A flush and the next load of the file keep the values of a namespace.
use micro_tech.Prelude.{
  ℕ, ◌^◌, ◌<◌, ◌≡◌, refl, ◌⊎◌, inl, inr, Option, none, some, List, [], ◌∷◌, length, ok, fail, arith,
  push_all, map,
}
use micro_tech.Sim.Nvs.{Text, Record, find}
use micro_tech.Sim.Nvs.Values.{str_eq→eq, bytes_of, Distinct, values}
use micro_tech.Sim.Nvs.Run.{plenty}
use micro_tech.Sim.Nvs.Image.{done, Disk, store_flush, load}
use micro_tech.Sim.Nvs.Image.RoundTrip.{
  AllStorable, image, reloaded, reloaded_content, store_flush_cases, load-image,
}

find-push_all :
    (k : Text) (rs before : List Record)
    → Distinct rs
    → find (push_all rs before) k ≡ elim (find rs k) [ none ↦ find before k | some r ↦ some r ]
unfolding find
find-push_all k [] before d = refl
find-push_all k (r ∷ rs) before (fresh, d) =
    ground (arith, find-push_all k rs (r ∷ before) d, str_eq→eq r.key k)

find-reloaded :
    (k : Text) (rs : List Record)
    → find (map reloaded rs) k ≡ elim (find rs k) [ none ↦ none | some r ↦ some (reloaded r) ]
unfolding find
find-reloaded k [] = refl
find-reloaded k (r ∷ rs) = ground (arith, find-reloaded k rs)

reloaded-Distinct : (rs : List Record) → Distinct rs → Distinct (map reloaded rs)
reloaded-Distinct [] d = tt
reloaded-Distinct (r ∷ rs) (fresh, d) =
    (ground (arith, find-reloaded r.key rs), reloaded-Distinct rs d)

bytes-reloaded : (c : Option (List ℕ)) → bytes_of (reloaded_content c) ≡ bytes_of c
bytes-reloaded none = refl
bytes-reloaded (some []) = refl
bytes-reloaded (some (b ∷ bs)) = refl

values-reloaded :
    (k : Text) (rs : List Record)
    → Distinct rs
    → values (push_all (map reloaded rs) []) k ≡ values rs k
unfolding values find
values-reloaded k rs d = ground (
  arith,
  find-push_all k (map reloaded rs) [] (reloaded-Distinct rs d),
  find-reloaded k rs,
  λ (r : Record). bytes-reloaded r.content,
)

pub store_flush_durable :
    (disk : Disk) (rs : List Record) (file : Option (List ℕ))
    → AllStorable rs
    → Distinct rs
    → length rs < 2 ^ 32
    → disk.lost ≡ none
    → (store_flush disk rs file ≡ done (fail, file))
      ⊎ (bs : List ℕ) × (rs' : List Record) × (store_flush disk rs file ≡ done (ok, some bs))
        × (load (λ _. plenty) (some bs) ≡ done (ok, rs'))
        × ((k : Text) → values rs' k ≡ values rs k)
store_flush_durable disk rs file s d h closed = elim (store_flush_cases disk rs file s h closed) [
  | inl e ↦
      inr
        (image rs, push_all (map reloaded rs) [], e, load-image rs s h, λ k. values-reloaded k rs d)
  | inr e ↦ inl e
]
