-- ===== src/SharedMemory/Memory.antt =====
-- modules/module_shm.c: what the `memcpy` calls of a gather leave in the shared area, and read there.
use sabo.Base.{
  ℕ, zero, suc, ◌+◌, ◌<◌, ◌≡◌, ◌≢◌, refl, get_elem?, some, write, write_self, write_other, arith,
  sym, ◌∙◌,
}
use native.Mathlib.Decide.{dec_lt}
use sabo.SharedMemory.{Area, Run, rbuf_word, store_doubles, load_doubles}

-- The word is in none of the `n` entries from `k` on.
abbrev pub Outside : ℕ → ℕ → ℕ → Type 0
Outside w k n = (t : ℕ) → t < n → (w ≢ rbuf_word (k + t)) × (w ≢ suc (rbuf_word (k + t)))

module _ {D : Type 0} (run : Run D) where
  open run use {bits, of_bits}

  pub store_doubles-other :
      (m : Area) (k n w : ℕ) (f : ℕ → D) → Outside w k n → store_doubles run m k f n w ≡ m w
  unfolding store_doubles
  store_doubles-other m k zero w f out = refl
  store_doubles-other m k (suc n) w f out =
      let (a, b) = out n (omega arith) in
      let before = store_doubles run m k f n in
      let at0 = write before (rbuf_word (k + n)) (bits (f n)).0 in
      write_other at0 (bits (f n)).1 (λ e. b (sym e))
      ∙ write_other before (bits (f n)).0 (λ e. a (sym e))
      ∙ store_doubles-other m k n w f (λ t h. out t (omega arith))

  -- Both words of an entry.
  abbrev pub Holds : Area → ℕ → D → Type 0
  Holds m k d = (m (rbuf_word k) ≡ (bits d).0) × (m (suc (rbuf_word k)) ≡ (bits d).1)

  pub store_doubles-Holds :
      (m : Area) (k n t : ℕ) (f : ℕ → D) → t < n → Holds (store_doubles run m k f n) (k + t) (f t)
  unfolding store_doubles
  store_doubles-Holds m k zero t f h = absurd (omega arith)
  store_doubles-Holds m k (suc n) t f h =
      let w = rbuf_word (k + n) in
      let before = store_doubles run m k f n in
      let at0 = write before w (bits (f n)).0 in
      elim (dec_lt t n) [
        | yes below ↦
            let (a, b) = store_doubles-Holds m k n t f below in
            (
              write_other at0 (bits (f n)).1 (omega arith)
                  ∙ write_other before (bits (f n)).0 (omega arith)
                  ∙ a,
              write_other at0 (bits (f n)).1 (omega arith)
                  ∙ write_other before (bits (f n)).0 (omega arith)
                  ∙ b,
            )
        | no last ↦
            let same : t ≡ n = omega arith in
            rw same (
              write_other at0 (bits (f n)).1 (omega arith) ∙ write_self before w (bits (f n)).0,
              write_self at0 (suc w) (bits (f n)).1,
            )
      ]

  pub load_doubles-Holds :
      (m : Area) (k n t : ℕ) (d : D)
      → ((x : D) → of_bits (bits x).0 (bits x).1 ≡ x)
      → t < n
      → Holds m (k + t) d
      → get_elem? (load_doubles run m k n) t ≡ some d
  unfolding load_doubles
  load_doubles-Holds m k zero t d back h held = absurd (omega arith)
  load_doubles-Holds m k (suc n) zero d back h held =
      let same : k + 0 ≡ k = omega arith in let (a, b) = rw same at held in rw (a, b, back d) refl
  load_doubles-Holds m k (suc n) (suc t) d back h held =
      let same : k + suc t ≡ suc k + t = omega arith in
      load_doubles-Holds m (suc k) n t d back (omega arith) (rw same at held)

  pub load_doubles-agree :
      (m m' : Area) (k n : ℕ)
      → ((t : ℕ)
          → t < n
          → (m (rbuf_word (k + t)) ≡ m' (rbuf_word (k + t)))
            × (m (suc (rbuf_word (k + t))) ≡ m' (suc (rbuf_word (k + t)))))
      → load_doubles run m k n ≡ load_doubles run m' k n
  unfolding load_doubles
  load_doubles-agree m m' k zero h = refl
  load_doubles-agree m m' k (suc n) h =
      let add_zero : k + 0 ≡ k = omega arith in
      let (a, b) = rw add_zero at (h 0 (omega arith)) in
      let rest = load_doubles-agree m m' (suc k) n (λ t c.
        let same : k + suc t ≡ suc k + t = omega arith in rw same at (h (suc t) (omega arith))) in
      rw (a, b, rest) refl
