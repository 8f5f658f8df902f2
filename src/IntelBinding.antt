-- ===== src/IntelBinding.antt =====
-- intel/intel_binding.c: the binding of a thread through the masks of the Intel OpenMP runtime, with
-- SABO_RTINTEL. The runtime is the parameter `Kmp`. The `data` of a thread holds a mask of hwloc where
-- `sabo_sys_bind_data_alloc` made it, which is that of common/binding.c; `none` is the use of one of
-- these as a mask of the Intel runtime. Log lines are left out.
mod Masks
mod Tests
use sabo.Base.{
  ℕ, zero, suc, ◌+◌, Bool, true, false, Option, none, some, if◌then◌else◌, ℤ, pos, negsuc, eqb_ℤ,
}
use mathlib.Core.Option

-- The calls on masks, and what `kmp_set_affinity` answers.
pub record Kmp (M : Type 0) : Type 0 where
  pub create : M
  pub set_proc : ℤ → M → M
  pub unset_proc : ℤ → M → M
  pub get_proc : ℤ → M → Bool
  pub max_proc : ℕ
  pub set_affinity_rc : M → ℤ

pub data Mask (M : Type 0) : Type 0 where
  hwloc : Mask M
  kmp : M → Mask M

-- `struct sys_bind_data`, with `affinity`, the mask that the thread itself has.
pub record IntelData (M : Type 0) : Type 0 where
  pub cur_core_id : ℤ
  pub new_core_id : ℤ
  pub mask : Option (Mask M)
  pub affinity : M

module _ {M : Type 0} where
  -- `sabo_sys_bind_data_alloc`
  abbrev pub sys_bind_data_alloc : IntelData M → IntelData M
  sys_bind_data_alloc d = record d { mask = some hwloc }

  -- The `data` of a thread as a mask of the Intel runtime.
  abbrev pub as_mask : Option (Mask M) → Option M
  as_mask (some (kmp m)) = some m
  as_mask (some hwloc) = none
  as_mask none = none

module _ {M : Type 0} (rt : Kmp M) where
  -- `sabo_intel_sys_bind_data_alloc`
  abbrev pub intel_sys_bind_data_alloc : IntelData M → IntelData M
  intel_sys_bind_data_alloc d = record d { mask = some (kmp rt.create) }

  -- `sabo_intel_sys_bind_data_free`
  abbrev pub intel_sys_bind_data_free : IntelData M → Option (IntelData M)
  intel_sys_bind_data_free d = Option.map (λ m. record d { mask = none }) (as_mask d.mask)

  -- The processors from `i` on, with the current core of the thread and its mask.
  unfoldable pub search_loop : ℕ → ℕ → ℤ → M → ℤ × M
  search_loop i zero cur m = (cur, m)
  search_loop i (suc n) cur m = elim (rt.get_proc (pos i) m) [
    | false ↦ search_loop (i + 1) n cur m
    | true ↦ elim (eqb_ℤ (negsuc 0) cur) [
      | true ↦ search_loop (i + 1) n (pos i) m
      | false ↦ search_loop (i + 1) n cur (rt.unset_proc (pos i) m)
    ]
  ]

  -- The thread's mask is read, and its lowest processor searched.
  abbrev pub search : IntelData M → IntelData M
  search d =
      let (cur, m) = search_loop 0 rt.max_proc d.cur_core_id d.affinity in
      record d { cur_core_id = cur; mask = some (kmp m) }

  unfoldable pub intel_get_thread_affinity : IntelData M → Option (IntelData M)
  intel_get_thread_affinity d = elim d.mask [
    | none ↦
        let d' =
          sys_bind_data_alloc (record d { cur_core_id = negsuc 0; new_core_id = negsuc 0 }) in
        Option.map (λ m. search d') (as_mask d'.mask)
    | some held ↦ Option.map (λ m. search d) (as_mask (some held))
  ]

  -- The new core goes into the mask, and the mask to the thread; a refusal is only logged.
  abbrev pub swap_core : M → IntelData M → IntelData M
  swap_core m d =
      let m' = rt.set_proc d.new_core_id m in
      record d {
        cur_core_id = d.new_core_id;
        mask = some (kmp m');
        affinity = if eqb_ℤ (pos 0) (rt.set_affinity_rc m') then m' else d.affinity;
      }

  unfoldable pub intel_set_thread_affinity : IntelData M → Option (IntelData M)
  intel_set_thread_affinity d = elim d.mask [
    | none ↦
        let d' = sys_bind_data_alloc d in
        Option.map
          (λ m.
            swap_core (if eqb_ℤ d.cur_core_id (negsuc 0) then m else rt.set_proc d.cur_core_id m)
              d')
          (as_mask d'.mask)
    | some held ↦
        Option.map (λ m. swap_core (rt.unset_proc d.cur_core_id m) d) (as_mask (some held))
  ]
