-- ===== src/Sim/Nvs/Run.antt =====
-- Sequences of operations on one namespace: no reply tells the records from the map.
use mathlib.Core.Path.{fun_ext}
use micro_tech.Prelude.{
  ℕ, ◌≡◌, refl, Bool, true, Option, none, some, List, [], ◌∷◌, EspErr, ok, arith,
}
use micro_tech.Sim.Nvs.{
  find, Text, Record, Alloc, set_record, Got, get_record, erase_record, nvs_not_found,
  store_content, set_with,
}
use micro_tech.Sim.Nvs.Values.{Values, values, AllSound, Distinct}
use micro_tech.Sim.Nvs.Refine.{
  put, remove, answer, get_record_lem, set_record-values, set_record-AllSound, set_record-Distinct,
  erase_record-values, erase_record-AllSound, erase_record-Distinct, erase_record_result,
}

pub data Op : Type 0 where
  put_key : Text → ℕ → List ℕ → Op
  get_key : Text → ℕ → Bool → Option ℕ → Op
  erase_key : Text → Op
  erase_all : Op

pub data Response : Type 0 where
  status : EspErr → Response
  read : Got → Response

abbrev pub plenty : Alloc
plenty = record { node = true; name = true; content = true }

abbrev cons_reply : Option Got → Option (List Response) → Option (List Response)
cons_reply (some g) (some rest) = some (read g ∷ rest)
cons_reply g rest = none

abbrev cons_status : EspErr → Option (List Response) → Option (List Response)
cons_status e none = none
cons_status e (some rest) = some (status e ∷ rest)

-- The operations in order on the records; `none` where one of them is undefined.
unfoldable pub run : List Record → List Op → Option (List Response)
run rs [] = some []
run rs (put_key key type bytes ∷ ops) =
    let (e, rs') = set_record plenty key type bytes rs in cons_status e (run rs' ops)
run rs (get_key key type wants_bytes size ∷ ops) =
    cons_reply (get_record key type wants_bytes size rs) (run rs ops)
run rs (erase_key key ∷ ops) = let (e, rs') = erase_record key rs in cons_status e (run rs' ops)
run rs (erase_all ∷ ops) = cons_status ok (run [] ops)

-- The same on the map, where every operation is defined.
unfoldable pub run_values : Values → List Op → List Response
run_values m [] = []
run_values m (put_key key type bytes ∷ ops) = status ok ∷ run_values (put key type bytes m) ops
run_values m (get_key key type wants_bytes size ∷ ops) =
    read (answer type wants_bytes size (m key)) ∷ run_values m ops
run_values m (erase_key key ∷ ops) =
    status (elim (m key) [ none ↦ nvs_not_found | some v ↦ ok ]) ∷ run_values (remove key m) ops
run_values m (erase_all ∷ ops) = status ok ∷ run_values (λ _. none) ops

values_empty : values [] ≡ (λ _. none)
unfolding values find
values_empty = refl

pub set_record-plenty :
    (key : Text) (type : ℕ) (bytes : List ℕ) (rs : List Record)
    → (set_record plenty key type bytes rs).0 ≡ ok
unfolding set_record
set_record-plenty key type bytes rs = unfold set_with store_content in ground arith

-- While the heap has memory, every sequence of writes, reads and erasures on the records of a
-- namespace is defined, and gets the replies that the map from keys to values gives: a read finds
-- the last value written for its key, if it has not been erased since.
pub run_refines :
    (ops : List Op) (rs : List Record)
    → AllSound rs
    → Distinct rs
    → run rs ops ≡ some (run_values (values rs) ops)
unfolding run run_values
run_refines [] rs s d = refl
run_refines (put_key key type bytes ∷ ops) rs s d =
    let e = set_record-plenty key type bytes rs in
    rw (
      e,
      run_refines ops (set_record plenty key type bytes rs).1
          (set_record-AllSound key type bytes plenty rs e s)
          (set_record-Distinct key type bytes plenty rs d),
      fun_ext (λ k. set_record-values key type bytes plenty rs k e),
    )
run_refines (get_key key type wants_bytes size ∷ ops) rs s d =
    rw (get_record_lem key type wants_bytes size rs s, run_refines ops rs s d)
run_refines (erase_key key ∷ ops) rs s d = rw (
  erase_record_result key rs,
  run_refines ops (erase_record key rs).1 (erase_record-AllSound key rs s)
      (erase_record-Distinct key rs d),
  fun_ext (λ k. erase_record-values key k rs d),
)
run_refines (erase_all ∷ ops) rs s d = rw (run_refines ops [] tt tt, values_empty)
