-- ===== src/Shares/Found.antt =====
-- kern/mem/shared_memory_manager.c: get_shared_object maps the frames of the object.
use fos_operational_system_f.Common.{
  ℕ, zero, suc, ◌+◌, ◌*◌, ◌%◌, ◌^◌, ◌≤◌, ◌<◌, ◌≡◌, refl, ap, sym, ◌∙◌, ◌⊎◌, inl, inr, Bool, true,
  false, none, some, arith, ◌==◌, update,
}
use native.Mathlib.Decide.{ℕ_discrete}
use fos_operational_system_f.Common.Outcome.{ok}
use fos_operational_system_f.Mmu.{page_size, has_bit, perm_buffered, perm_present}
use fos_operational_system_f.Frames.State.{Memory, slot, pdx}
use fos_operational_system_f.Frames.Table.{entry_frame, holds_frame}
use fos_operational_system_f.Frames.Map.{KernelHeap, map_frame, link_frame}
use fos_operational_system_f.Frames.Valid.{FramesValid}
use fos_operational_system_f.Frames.Mapped.{MapsTo, shared, linked_MapsTo}
use fos_operational_system_f.Frames.Paged.{map_frame_empty}
use fos_operational_system_f.Shares.{
  Share, FramesStorage, Shares, object, find_share, pages_of_share, get_permissions, stored_frame,
  get_pages_of_share, get_found, get_shared_object, acquire_shareslock, release_shareslock,
}

-- The pages from `va` on, from the one numbered `i`, can take `left` stored frames: each page has
-- a table and holds nothing, and each frame is mapped somewhere and its count has room.
pub record Shareable (n dir va i left : ℕ) (frame : ℕ → ℕ) (a : FramesStorage) (m : Memory)
    : Type 0 where
  pub low : va + (i + left) * page_size ≤ 2 ^ 32
  pub stored : (j : ℕ) → i ≤ j → j < i + left → (j < a.length) × (a.frames j ≡ some (frame j))
  pub inside : (j : ℕ) → i ≤ j → j < i + left → slot dir va + j < n
  pub tables : (j : ℕ) → i ≤ j → j < i + left → m.has_table dir (pdx (va + j * page_size)) ≡ true
  pub free : (j : ℕ) → i ≤ j → j < i + left → holds_frame (m.entries (slot dir va + j)) ≡ false
  pub mapped :
      (j : ℕ)
      → i ≤ j
      → j < i + left
      → (frame j < m.number_of_frames)
        × (0 < (m.frames_info (frame j)).references)
        × ((m.frames_info (frame j)).references + left < 2 ^ 16)

-- What the loop leaves: each page holds its frame.
pub record SharedPages (base : ℕ → ℕ) (n dir va i left : ℕ) (frame : ℕ → ℕ) (m k : Memory)
    : Type 0 where
  pub valid : FramesValid base n none k
  pub holds :
      (j : ℕ)
      → i ≤ j
      → j < i + left
      → (holds_frame (k.entries (slot dir va + j)) ≡ true)
        × (has_bit perm_present (k.entries (slot dir va + j)) ≡ true)
        × (entry_frame (k.entries (slot dir va + j)) ≡ frame j)
  pub others :
      (s : ℕ) → (s < slot dir va + i) ⊎ (slot dir va + (i + left) ≤ s) → k.entries s ≡ m.entries s

next-Shareable :
    (n dir va i left perm : ℕ) (frame : ℕ → ℕ) (a : FramesStorage) (m : Memory)
    → Shareable n dir va i (suc left) frame a m
    → Shareable n dir va (i + 1) left frame a (link_frame dir (frame i) (va + i * page_size) perm m)
unfolding link_frame
next-Shareable n dir va i left perm frame a m p = record {
  low = omega (arith, p.low);
  stored = λ j a b. p.stored j (omega (arith, a)) (omega (arith, b));
  inside = λ j a b. p.inside j (omega (arith, a)) (omega (arith, b));
  tables = λ j a b. p.tables j (omega (arith, a)) (omega (arith, b));
  free = λ j a b.
      let old = p.free j (omega (arith, a)) (omega (arith, b)) in
      let apart : (slot dir (va + i * page_size) == slot dir va + j) ≡ false = ground (arith, a) in
      rw (apart) old;
  mapped = λ j a b.
      let old = p.mapped j (omega (arith, a)) (omega (arith, b)) in
      (old.0, ground (arith, old), ground (arith, old));
}

next-SharedPages :
    (base : ℕ → ℕ) (n dir va i left : ℕ) (frame : ℕ → ℕ) (m k g : Memory)
    → MapsTo base n dir (frame i) (va + i * page_size) m k
    → SharedPages base n dir va (i + 1) left frame k g
    → SharedPages base n dir va i (suc left) frame m g
next-SharedPages base n dir va i left frame m k g r s = record {
  valid = s.valid;
  holds = λ j a b. elim (ℕ_discrete i j) [
    | no ne ↦ s.holds j (omega (arith, a, ne)) (omega (arith, b))
    | yes e ↦
        let here : slot dir (va + i * page_size) ≡ slot dir va + j = omega (arith, e) in
        let old : g.entries (slot dir va + j) ≡ k.entries (slot dir va + j) =
          s.others (slot dir va + j) (inl (omega (arith, e))) in
        let same : k.entries (slot dir (va + i * page_size)) ≡ k.entries (slot dir va + j) =
          ap k.entries here in
        (
          ap holds_frame (old ∙ sym same) ∙ r.holds,
          ap (has_bit perm_present) (old ∙ sym same) ∙ r.present,
          ap entry_frame (old ∙ sym same) ∙ r.frame ∙ ap frame e,
        )
  ];
  others = λ t h.
      s.others t (elim h [ inl a ↦ inl (omega (arith, a)) | inr a ↦ inr (omega (arith, a)) ])
      ∙ r.others t (λ e. elim h [ inl a ↦ omega (arith, a, e) | inr a ↦ omega (arith, a, e) ]);
}

get_permissions_plain : (writable : Bool) → has_bit perm_buffered (get_permissions writable) ≡ false
get_permissions_plain true = refl
get_permissions_plain false = refl

get_pages_of_share_lem :
    (h : KernelHeap) (base : ℕ → ℕ) (n dir va a : ℕ) (writable : Bool) (frame : ℕ → ℕ) (i left : ℕ)
    (s : Shares)
    → FramesValid base n none s.memory
    → Shareable n dir va i left frame (s.storage a) s.memory
    → (k : Memory) × (get_pages_of_share h dir va a writable i left s
        ≡ ok (record s { memory = k }))
      × SharedPages base n dir va i left frame s.memory k
unfolding get_pages_of_share
get_pages_of_share_lem h base n dir va a writable frame i zero s v p = (
  s.memory,
  refl,
  record { valid = v; holds = λ j x y. absurd (omega (arith, x, y)); others = λ t _. refl },
)
get_pages_of_share_lem h base n dir va a writable frame i (suc left) s v p =
    let (lt, there) = p.stored i (omega arith) (omega arith) in
    let found : stored_frame s a i ≡ ok (frame i) = rw (there) (ground (arith, lt)) in
    let page : (va + i * page_size) % 2 ^ 32 ≡ va + i * page_size = omega (arith, p.low) in
    let here : slot dir (va + i * page_size) ≡ slot dir va + i = omega arith in
    let (real, some_one, room) = p.mapped i (omega arith) (omega arith) in
    let perm = get_permissions writable in
    let free : holds_frame (s.memory.entries (slot dir (va + i * page_size))) ≡ false =
      ap (λ x. holds_frame (s.memory.entries x)) here ∙ p.free i (omega arith) (omega arith) in
    let table = p.tables i (omega arith) (omega arith) in
    let k = link_frame dir (frame i) (va + i * page_size) perm s.memory in
    let r : MapsTo base n dir (frame i) (va + i * page_size) s.memory k =
      linked_MapsTo base n dir (frame i) (va + i * page_size) perm
        (ground (arith, here, p.inside i (omega arith) (omega arith))) none s.memory v real
        (shared refl some_one) (omega (arith, room)) (get_permissions_plain writable) free in
    let (g, rest, q) =
      get_pages_of_share_lem h base n dir va a writable frame (i + 1) left (record s { memory = k })
        r.valid (next-Shareable n dir va i left perm frame (s.storage a) s.memory p) in
    let call : map_frame h dir (frame i) ((va + i * page_size) % 2 ^ 32) perm s.memory ≡ ok k =
      ap (λ x. map_frame h dir (frame i) x perm s.memory) page
      ∙ map_frame_empty h dir (frame i) (va + i * page_size) perm s.memory table free in
    (g, rw (found, call) rest, next-SharedPages base n dir va i left frame s.memory k g r q)

-- With the lock of the shares free, for an object that exists, whose frames are stored and mapped
-- elsewhere with room in their counts, and for pages that hold nothing and have their tables,
-- get_shared_object returns the ID of the object and counts one reference more. Each page is then
-- present and holds the frame of the object with its number, no entry outside the range is
-- changed, and the counts of the frames are exact again.
pub get_shared_object_lem :
    (h : KernelHeap) (base : ℕ → ℕ) (n dir owner name va p : ℕ) (frame : ℕ → ℕ) (s : Shares)
    → s.shareslock ≡ false
    → find_share s.share s.shares_list owner name ≡ some p
    → FramesValid base n none s.memory
    → Shareable n dir va 0
        (pages_of_share (s.share p).size)
        frame
        (s.storage (s.share p).frames_storage)
        s.memory
    → (t : Shares) × (get_shared_object h dir owner name va s ≡ ok (object (s.share p).id, t))
      × ((t.share p).references ≡ ((s.share p).references + 1) % 2 ^ 32)
      × (t.shareslock ≡ false)
      × SharedPages base n dir va 0 (pages_of_share (s.share p).size) frame s.memory t.memory
unfolding get_shared_object get_found acquire_shareslock release_shareslock
get_shared_object_lem h base n dir owner name va p frame s unlocked found v q =
    let o = s.share p in
    let locked : Shares = record s { shareslock = true } in
    let (k, loop, r) =
      get_pages_of_share_lem h base n dir va o.frames_storage o.is_writable frame 0
        (pages_of_share o.size) locked v q in
    let one_more : Share = record o { references = (o.references + 1) % 2 ^ 32 } in
    let t : Shares = record s {
      memory = k;
      share = update s.share p one_more;
      shareslock = false;
    } in
    let acquired : acquire_shareslock s ≡ ok locked = rw (unlocked) refl in
    let same : update s.share p one_more p ≡ one_more = ground arith in
    (
      t,
      rw (acquired, get_shared_object)
          (rw (found, get_found) (rw (loop) (ap (λ x. ok (object x.id, t)) same))),
      ap (λ x. x.references) same,
      refl,
      r,
    )
