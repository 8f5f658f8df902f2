-- ===== src/SyncFile/Safety.antt =====
-- modules/module_shm.c: what the clients find, and a node where a former run has left its files.
use sabo.Base.{ℕ, ◌<◌, ◌≡◌, ◌≢◌, refl, sym, ap, false, Option, none, some, ltb, write, write_self}
use sabo.SyncFile.{
  SharedContext, File, Master, published, exists_already, Client, opening, locking, reading,
  unlocking, attaching, attached, not_found, Holder, client, Node, Layout, read_context, new_file,
  truncated, written, after_read, Step, refuse_create, client_open, client_lock, client_read,
  client_unlock, client_attach, Reach, here, next, start,
}
use sabo.SyncFile.Invariant.{
  Inv, start-Inv, Step-Inv, Has, Phase, at, area_of_Written, read-written,
}

module _ (layout : Layout) (ctx : SharedContext) (some_size : 0 < layout.context_size) where
  Reach-Inv : {s : Node} → Reach layout ctx (start none none) s → Inv layout ctx s
  Reach-Inv here = start-Inv layout ctx
  Reach-Inv (next r st) = Step-Inv layout ctx some_size st (Reach-Inv r)

  -- What a client may have found, with this area.
  abbrev pub Found : Option ℕ → Client → Type 0
  Found area (attached c) = (c ≡ ctx) × (area ≡ some ctx.size)
  Found area not_found = ⊥
  Found area _ = Unit

  Has-Found :
      (m : Master) (area : Option ℕ) (file : Option File) (c : Client)
      → Phase layout ctx m area file
      → Has layout ctx m c
      → Found area c
  Has-Found m area file opening p h = tt
  Has-Found m area file locking p h = tt
  Has-Found m area file reading p h = tt
  Has-Found m area file (unlocking r) p h = tt
  Has-Found m area file (attaching c) p h = tt
  Has-Found m area file (attached c) p h = (h.1, area_of_Written layout ctx m area file h.0 p)
  Has-Found m area file not_found p h = h

  -- On a node that has neither the file nor the area before, however the calls of the processes
  -- interleave: a client that has attached has the context of the master, and the area has the size
  -- that this context tells; no client finds no area, and the master does not find one that exists
  -- already.
  pub attached-context :
      (s : Node) (i : ℕ)
      → Reach layout ctx (start none none) s
      → Found s.area (s.clients i) × (s.master ≢ exists_already)
  attached-context s i r =
      let v = Reach-Inv r in
      (
        Has-Found s.master s.area s.file (s.clients i) v.phase (v.has i),
        λ e. at layout ctx exists_already v e,
      )

  -- The states of a client that takes its calls one after another.
  abbrev moved : Node → ℕ → Option Holder → Client → Node
  moved s i lock c = record s { lock = lock; clients = write s.clients i c }

  -- A client that is about to open the file, when a context can be read from it, nobody holds its lock
  -- and the area exists.
  pub client-attaches :
      (s : Node) (i n : ℕ) (f : File) (c : SharedContext)
      → s.clients i ≡ opening
      → s.file ≡ some f
      → s.lock ≡ none
      → s.area ≡ some n
      → read_context layout f ≡ some c
      → (t : Node) × Reach layout ctx s t
        × (t.clients i ≡ attached c)
        × (t.master ≡ s.master)
        × (t.area ≡ s.area)
  client-attaches s i n f c e held free area readable =
      let s1 = moved s i s.lock locking in
      let s2 = moved s1 i (some (client i)) reading in
      let s3 = moved s2 i s2.lock (unlocking (read_context layout f)) in
      let s4 = moved s3 i none (attaching c) in
      let s5 = moved s4 i none (attached c) in
      let go1 : Step layout ctx s s1 = client_open i f e held refl in
      let go2 : Step layout ctx s1 s2 = client_lock i (write_self s.clients i locking) free refl in
      let go3 : Step layout ctx s2 s3 =
        client_read i f (write_self s1.clients i reading) held refl in
      let go4 : Step layout ctx s3 s4 =
        client_unlock i (read_context layout f)
          (write_self s2.clients i (unlocking (read_context layout f)))
          (ap (λ r. moved s3 i none (after_read layout r)) (sym readable)) in
      let go5 : Step layout ctx s4 s5 =
        client_attach i c n (write_self s3.clients i (attaching c)) area refl in
      (
        s5,
        next (next (next (next (next here go1) go2) go3) go4) go5,
        write_self s4.clients i (attached c),
        refl,
        refl,
      )

  Reach-trans : {s t u : Node} → Reach layout ctx s t → Reach layout ctx t u → Reach layout ctx s u
  Reach-trans r here = r
  Reach-trans r (next q st) = next (Reach-trans r q) st

  -- On such a node, whenever the master is done and nobody holds the lock, a client that is about to
  -- open the file can attach with the context of the master.
  pub attach-possible :
      (s : Node) (i : ℕ)
      → Reach layout ctx (start none none) s
      → s.master ≡ published
      → s.lock ≡ none
      → s.clients i ≡ opening
      → (t : Node) × Reach layout ctx s t × (t.clients i ≡ attached ctx)
  attach-possible s i r done free e =
      let v = Reach-Inv r in
      let (area, held) = at layout ctx published v done in
      let cut = truncated layout (new_file layout) in
      let (t, q, there, _, _) =
        client-attaches s i ctx.size (written layout ctx cut) ctx e held free area
          (read-written layout ctx some_size cut) in
      (t, q, there)

  -- Where a former run has left a file that holds a context, and the area, a client can attach with
  -- that old context, and the master of the new run is refused the area.
  pub stale-context :
      (i n : ℕ) (f : File)
      → ltb f.length layout.context_size ≡ false
      → (t : Node) × Reach layout ctx (start (some f) (some n)) t
        × (t.clients i ≡ attached f.start)
        × (t.master ≡ exists_already)
  stale-context i n f whole =
      let s = start (some f) (some n) in
      let (t, q, there, same, area) =
        client-attaches s i n f f.start refl refl refl refl (simp (whole) refl) in
      (record t { master = exists_already }, next q (refuse_create n same area refl), there, refl)
