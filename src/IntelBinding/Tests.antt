-- ===== src/IntelBinding/Tests.antt =====
-- intel/intel_binding.c: masks of eight processors as functions.
use sabo.Base.{
  ℕ, ◌<◌, ◌≡◌, refl, Bool, true, false, none, some, [], ◌∷◌, write, leb, ◌==◌, pos, negsuc,
  pos_part, arith,
}
use sabo.IntelBinding.{Kmp, kmp, IntelData, intel_get_thread_affinity, intel_sys_bind_data_alloc}
use sabo.IntelBinding.Masks.{KmpLaws, On, send, read_and_send-On, get_thread_affinity-empties}

-- The thread may run on the processors from 3 on.
abbrev runtime : Kmp (ℕ → Bool)
runtime = record {
  create = λ j. false;
  set_proc = λ i m. write m (pos_part i) true;
  unset_proc = λ i m. write m (pos_part i) false;
  get_proc = λ i m. m (pos_part i);
  max_proc = 8;
  set_affinity_rc = λ m. pos 0;
}

runtime-KmpLaws : KmpLaws runtime
runtime-KmpLaws = record {
  get-create = λ i b. refl;
  get-set = λ i j m a b. refl;
  get-unset = λ i j m a b. refl;
}

abbrev allocated : IntelData (ℕ → Bool)
allocated =
    intel_sys_bind_data_alloc runtime
      (record { cur_core_id = negsuc 0; new_core_id = pos 0; mask = none; affinity = λ j. leb 3 j })

below_three : (l : ℕ) → l < 3 → leb 3 l ≡ false
below_three l b = ground arith

read_and_send-On_example :
    (d1 : IntelData (ℕ → Bool)) × (d2 : IntelData (ℕ → Bool)) × (v2 : On runtime runtime-KmpLaws 2
      d2)
    × (intel_get_thread_affinity runtime allocated ≡ some d1)
    × On runtime runtime-KmpLaws 3 d1
    × (send runtime runtime-KmpLaws (5 ∷ 2 ∷ []) d1 ≡ some d2)
    × (d2.affinity ≡ v2.held)
read_and_send-On_example =
    read_and_send-On runtime runtime-KmpLaws allocated (λ j. false) 3 5 (2 ∷ []) refl refl
      (omega arith) refl below_three (omega arith, (omega arith, tt)) (λ m. refl)

-- The thread after a first read.
abbrev was_read : IntelData (ℕ → Bool)
was_read = record {
  cur_core_id = pos 3;
  new_core_id = pos 0;
  mask = some (kmp (λ j. j == 3));
  affinity = λ j. leb 3 j;
}

was_read-On : On runtime runtime-KmpLaws 3 was_read
was_read-On = record { cur = refl; held = λ j. j == 3; mask = refl; only = λ j b. refl }

get_thread_affinity-empties_example :
    (d' : IntelData (ℕ → Bool)) × (m' : ℕ → Bool) × (intel_get_thread_affinity runtime was_read
      ≡ some d')
    × (d'.cur_core_id ≡ pos 3)
    × (d'.mask ≡ some (kmp m'))
    × ((j : ℕ) → j < 8 → m' j ≡ false)
get_thread_affinity-empties_example =
    get_thread_affinity-empties runtime runtime-KmpLaws was_read 3 was_read-On (omega arith)
