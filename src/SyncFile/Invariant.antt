-- ===== src/SyncFile/Invariant.antt =====
-- modules/module_shm.c: what holds at any time, on a node that has neither file nor area before.
use sabo.Base.{
  ℕ, suc, ◌<◌, ◌≡◌, ◌≢◌, refl, sym, ap, ◌∙◌, Option, none, some, write, write-all, none-some,
  some-injective, arith,
}
use mathlib.Core.Path.{subst}
use sabo.SyncFile.{
  SharedContext, File, Master, creating, mapping, publishing, master_locking, truncating, writing,
  master_unlocking, published, exists_already, Client, opening, locking, reading, unlocking,
  attaching, attached, not_found, Holder, the_master, client, Node, Layout, read_context, new_file,
  opened, truncated, written, after_read, Step, create, refuse_create, map_area, open_file,
  lock_file, truncate_file, write_file, unlock_file, client_open, client_retry, client_lock,
  client_read, client_unlock, client_attach, client_miss, start,
}

module _ (layout : Layout) (ctx : SharedContext) where
  -- The area and the file, by where the master stands.
  abbrev pub Phase : Master → Option ℕ → Option File → Type 0
  Phase creating area file = (area ≡ none) × (file ≡ none)
  Phase mapping area file = (area ≡ some 0) × (file ≡ none)
  Phase publishing area file = (area ≡ some ctx.size) × (file ≡ none)
  Phase master_locking area file = (area ≡ some ctx.size) × (file ≡ some (new_file layout))
  Phase truncating area file = (area ≡ some ctx.size) × (file ≡ some (new_file layout))
  Phase writing area file =
      (area ≡ some ctx.size) × (file ≡ some (truncated layout (new_file layout)))
  Phase master_unlocking area file =
      (area ≡ some ctx.size)
      × (file ≡ some (written layout ctx (truncated layout (new_file layout))))
  Phase published area file =
      (area ≡ some ctx.size)
      × (file ≡ some (written layout ctx (truncated layout (new_file layout))))
  Phase exists_already area file = ⊥

  abbrev pub Critical : Master → Type 0
  Critical truncating = Unit
  Critical writing = Unit
  Critical master_unlocking = Unit
  Critical _ = ⊥

  -- The file has the master's context.
  abbrev pub Written : Master → Type 0
  Written master_unlocking = Unit
  Written published = Unit
  Written _ = ⊥

  abbrev pub Holding : Client → Type 0
  Holding reading = Unit
  Holding (unlocking r) = Unit
  Holding _ = ⊥

  abbrev pub Has : Master → Client → Type 0
  Has m (unlocking (some c)) = Written m × (c ≡ ctx)
  Has m (attaching c) = Written m × (c ≡ ctx)
  Has m (attached c) = Written m × (c ≡ ctx)
  Has m not_found = ⊥
  Has m _ = Unit

  pub record Inv (s : Node) : Type 0 where
    pub phase : Phase s.master s.area s.file
    pub master_holds : Critical s.master → s.lock ≡ some the_master
    pub client_holds : (i : ℕ) → Holding (s.clients i) → s.lock ≡ some (client i)
    pub has : (i : ℕ) → Has s.master (s.clients i)

  pub start-Inv : Inv (start none none)
  start-Inv = record {
    phase = (refl, refl);
    master_holds = λ h. absurd h;
    client_holds = λ i h. absurd h;
    has = λ i. tt;
  }

  -- A step of the master to `m`, which no client undoes.
  Has-later : (m m' : Master) → (Written m → Written m') → (c : Client) → Has m c → Has m' c
  Has-later m m' w opening h = tt
  Has-later m m' w locking h = tt
  Has-later m m' w reading h = tt
  Has-later m m' w (unlocking none) h = tt
  Has-later m m' w (unlocking (some c)) h = (w h.0, h.1)
  Has-later m m' w (attaching c) h = (w h.0, h.1)
  Has-later m m' w (attached c) h = (w h.0, h.1)
  Has-later m m' w not_found h = h

  pub at : {s : Node} (m : Master) → Inv s → s.master ≡ m → Phase m s.area s.file
  at {s} m v e = subst (λ x. Phase x s.area s.file) e v.phase

  holders_apart : {i : ℕ} → {l : Option Holder} → l ≡ some the_master → l ≡ some (client i) → ⊥
  holders_apart e f = cc

  client_injective :
      {i j : ℕ} {l : Option Holder} → l ≡ some (client i) → l ≡ some (client j) → j ≡ i
  client_injective e f = cc

  free_held : {l : Option Holder} {h : Holder} → l ≡ none → l ≡ some h → ⊥
  free_held e f = cc

  -- A step of the master outside the lock leaves the lock and the clients alone.
  master_step :
      {s : Node} (m m' : Master) (area : Option ℕ) (file : Option File)
      → Inv s
      → s.master ≡ m
      → Phase m' area file
      → (Critical m' → Critical m)
      → (Written m → Written m')
      → Inv (record s { area = area; file = file; master = m' })
  master_step {s} m m' area file v e ph crit w = record {
    phase = ph;
    master_holds = λ h. v.master_holds (subst Critical (sym e) (crit h));
    client_holds = v.client_holds;
    has = λ i. Has-later s.master m' (λ h. w (subst Written e h)) (s.clients i) (v.has i);
  }

  -- A step of a client to `c`, with the lock as `lock` after it.
  client_step :
      {s : Node} (i : ℕ) (c : Client) (lock : Option Holder)
      → Inv s
      → (Critical s.master → lock ≡ some the_master)
      → (Holding c → lock ≡ some (client i))
      → ((j : ℕ) → j ≢ i → Holding (s.clients j) → lock ≡ some (client j))
      → Has s.master c
      → Inv (record s { lock = lock; clients = write s.clients i c })
  client_step {s} i c lock v m own others has = record {
    phase = v.phase;
    master_holds = m;
    client_holds = λ j.
        write-all (λ k x. Holding x → lock ≡ some (client k)) (suc j) s.clients i c own
          (λ k b ne. others k ne) j (omega arith);
    has = λ j.
        write-all (λ k x. Has s.master x) (suc j) s.clients i c has (λ k b ne. v.has k) j
          (omega arith);
  }

  -- The same where the lock stays.
  client_stay :
      {s : Node} (i : ℕ) (c : Client)
      → Inv s
      → (Holding c → s.lock ≡ some (client i))
      → Has s.master c
      → Inv (record s { clients = write s.clients i c })
  client_stay {s} i c v own has =
      client_step i c s.lock v v.master_holds own (λ j ne h. v.client_holds j h) has

  held :
      {s : Node} (i : ℕ) (c : Client)
      → Inv s
      → s.clients i ≡ c
      → Holding c
      → s.lock ≡ some (client i)
  held i c v e h = v.client_holds i (subst Holding (sym e) h)

  pub client-Has : {s : Node} (i : ℕ) (c : Client) → Inv s → s.clients i ≡ c → Has s.master c
  client-Has {s} i c v e = subst (Has s.master) e (v.has i)

  pub area_of_Written :
      (m : Master) (area : Option ℕ) (file : Option File)
      → Written m
      → Phase m area file
      → area ≡ some ctx.size
  area_of_Written master_unlocking area file w p = p.0
  area_of_Written published area file w p = p.0
  area_of_Written creating area file w p = absurd w
  area_of_Written mapping area file w p = absurd w
  area_of_Written publishing area file w p = absurd w
  area_of_Written master_locking area file w p = absurd w
  area_of_Written truncating area file w p = absurd w
  area_of_Written writing area file w p = absurd w
  area_of_Written exists_already area file w p = absurd w

  module _ (some_size : 0 < layout.context_size) where
    read-new : read_context layout (new_file layout) ≡ none
    read-new = ground (arith, some_size)

    pub read-written : (f : File) → read_context layout (written layout ctx f) ≡ some ctx
    read-written f = ground arith

    -- What a client reads outside the lock of the master.
    read-Has :
        (m : Master) (area : Option ℕ) (f : File)
        → Phase m area (some f)
        → (Critical m → ⊥)
        → Has m (unlocking (read_context layout f))
    read-Has creating area f p out = absurd (none-some (sym p.1))
    read-Has mapping area f p out = absurd (none-some (sym p.1))
    read-Has publishing area f p out = absurd (none-some (sym p.1))
    read-Has master_locking area f p out =
        let e = ap (read_context layout) (some-injective f (new_file layout) p.1) ∙ read-new in
        subst (λ r. Has master_locking (unlocking r)) (sym e) tt
    read-Has published area f p out =
        let cut = truncated layout (new_file layout) in
        let e =
          ap (read_context layout) (some-injective f (written layout ctx cut) p.1)
          ∙ read-written cut in
        subst (λ r. Has published (unlocking r)) (sym e) (tt, refl)
    read-Has truncating area f p out = absurd (out tt)
    read-Has writing area f p out = absurd (out tt)
    read-Has master_unlocking area f p out = absurd (out tt)
    read-Has exists_already area f p out = absurd p

    after_read-Has :
        (m : Master) (r : Option SharedContext) → Has m (unlocking r) → Has m (after_read layout r)
    after_read-Has m none h = tt
    after_read-Has m (some c) h = h

    not-Holding : (r : Option SharedContext) → Holding (after_read layout r) → ⊥
    not-Holding none h = h
    not-Holding (some c) h = h

    pub Step-Inv : {s t : Node} → Step layout ctx s t → Inv s → Inv t
    Step-Inv {s} (create e a t) v = subst Inv (sym t) (
        master_step creating mapping (some 0) s.file v e (refl, (at creating v e).1) (λ h. h)
          (λ h. h))
    Step-Inv {s} (refuse_create n e a t) v = absurd (none-some (sym (at creating v e).0 ∙ a))
    Step-Inv {s} (map_area e t) v = subst Inv (sym t) (
        master_step mapping publishing (some ctx.size) s.file v e (refl, (at mapping v e).1)
          (λ h. h) (λ h. h))
    Step-Inv {s} (open_file e t) v =
        let (a, f) = at publishing v e in
        subst Inv (sym t) (
          master_step publishing master_locking s.area (some (opened layout s.file)) v e
            (a, ap (λ g. some (opened layout g)) f) (λ h. h) (λ h. h))
    Step-Inv {s} (lock_file e free t) v = subst Inv (sym t) (record {
      phase = at master_locking v e;
      master_holds = λ h. refl;
      client_holds = λ i h. absurd (free_held free (v.client_holds i h));
      has = λ i.
          Has-later s.master truncating (λ h. absurd (subst Written e h)) (s.clients i) (v.has i);
    })
    Step-Inv {s} (truncate_file f e held t) v =
        let (a, g) = at truncating v e in
        subst Inv (sym t) (
          master_step truncating writing s.area (some (truncated layout f)) v e
            (
              a,
              ap (λ x. some (truncated layout x))
                  (some-injective f (new_file layout) (sym held ∙ g)),
            )
            (λ h. h) (λ h. h))
    Step-Inv {s} (write_file f e held t) v =
        let (a, g) = at writing v e in
        subst Inv (sym t) (
          master_step writing master_unlocking s.area (some (written layout ctx f)) v e
            (
              a,
              ap (λ x. some (written layout ctx x))
                  (some-injective f (truncated layout (new_file layout)) (sym held ∙ g)),
            )
            (λ h. h) (λ h. absurd h))
    Step-Inv {s} (unlock_file e t) v =
        let mine = v.master_holds (subst Critical (sym e) tt) in
        subst Inv (sym t) (record {
          phase = at master_unlocking v e;
          master_holds = λ h. absurd h;
          client_holds = λ i h. absurd (holders_apart mine (v.client_holds i h));
          has = λ i. Has-later s.master published (λ h. tt) (s.clients i) (v.has i);
        })
    Step-Inv {s} (client_open i f e held t) v =
        subst Inv (sym t) (client_stay i locking v (λ h. absurd h) tt)
    Step-Inv {s} (client_retry i e gone t) v = subst Inv (sym t) v
    Step-Inv {s} (client_lock i e free t) v = subst Inv (sym t) (
        client_step i reading (some (client i)) v (λ h. absurd (free_held free (v.master_holds h)))
          (λ h. refl) (λ j ne h. absurd (free_held free (v.client_holds j h))) tt)
    Step-Inv {s} (client_read i f e held_file t) v =
        let mine = held i reading v e tt in
        let out = λ (h : Critical s.master). holders_apart (v.master_holds h) mine in
        let phase = subst (Phase s.master s.area) held_file v.phase in
        subst Inv (sym t) (
          client_stay i (unlocking (read_context layout f)) v (λ h. mine)
            (read-Has s.master s.area f phase out))
    Step-Inv {s} (client_unlock i r e t) v =
        let mine = held i (unlocking r) v e tt in
        subst Inv (sym t) (
          client_step i (after_read layout r) none v
            (λ h. absurd (holders_apart (v.master_holds h) mine)) (λ h. absurd (not-Holding r h))
            (λ j ne h. absurd (ne (client_injective mine (v.client_holds j h))))
            (after_read-Has s.master r (client-Has i (unlocking r) v e)))
    Step-Inv {s} (client_attach i c n e held t) v =
        subst Inv (sym t)
          (client_stay i (attached c) v (λ h. absurd h) (client-Has i (attaching c) v e))
    Step-Inv {s} (client_miss i c e gone t) v =
        let (w, same) = client-Has i (attaching c) v e in
        absurd (none-some (sym gone ∙ area_of_Written s.master s.area s.file w v.phase))
