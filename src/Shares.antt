-- ===== src/Shares.antt =====
-- kern/mem/shared_memory_manager.c: the shared objects. A name is a number here: the string
-- functions, which lib/ holds, compare and copy it, and no name is longer than the field.

pub mod Paged
pub mod Found
pub mod Freeing
pub mod Freed
pub mod Examples
use fos_operational_system_f.Common.{
  ℕ, zero, suc, ◌+◌, ◌-◌, ◌*◌, ◌/◌, ◌%◌, ◌^◌, ◌≡◌, Bool, true, false, ◌&&◌, ◌||◌, not, Option, none,
  some, List, [], ◌∷◌, ◌++◌, arith, ◌==◌, ltb, if◌then◌else◌, update, contains, erase,
}
use fos_operational_system_f.Common.Outcome.{Outcome, ok, panic, fault, ◌>>=◌}
use fos_operational_system_f.Mmu.{page_size, roundup}
use fos_operational_system_f.Frames.State.{Memory, allocate_frame, free_frame}
use fos_operational_system_f.Frames.Map.{KernelHeap, map_frame}

-- `struct Share`
pub record Share : Type 0 where
  pub id : ℕ
  pub owner_id : ℕ
  pub name : ℕ
  pub size : ℕ
  pub references : ℕ
  pub is_writable : Bool
  pub frames_storage : ℕ

-- An array of pointers to frames, of `length` elements; a null pointer is `none`.
pub record FramesStorage : Type 0 where
  pub length : ℕ
  pub frames : ℕ → Option ℕ

-- AllShares, what its pointers and those to the arrays of frames point to, and the frames. The
-- head of `shares_list` is LIST_FIRST. `shareslock` says whether this CPU holds the lock.
pub record Shares : Type 0 where
  pub memory : Memory
  pub shares_list : List ℕ
  pub share : ℕ → Share
  pub storage : ℕ → FramesStorage
  pub shareslock : Bool

abbrev pub Run : Type 0
Run = Outcome Shares Shares

-- What create_shared_object and get_shared_object return: an ID or one of the error codes.
pub data Result : Type 0 where
  object : ℕ → Result
  shared_mem_exists no_share shared_mem_not_exists : Result

-- An operation on the frames.
abbrev pub on_memory : Shares → Outcome Memory Memory → Run
on_memory s (ok m) = ok (record s { memory = m })
on_memory s panic = panic
on_memory s _ = fault

-- An operation on the frames that returns one.
abbrev pub on_frame : Outcome Memory (ℕ × Memory) → (ℕ → Memory → Run) → Run
on_frame (ok r) next = next r.0 r.1
on_frame panic next = panic
on_frame _ next = fault

-- kmalloc
abbrev pub call_kmalloc : KernelHeap → ℕ → Shares → Outcome Shares (ℕ × Shares)
call_kmalloc h n s = elim (h.kmalloc n s.memory) [
  | ok r ↦ ok (r.0, record s { memory = r.1 })
  | panic ↦ panic
  | _ ↦ fault
]

unfoldable pub acquire_shareslock : Shares → Run
acquire_shareslock s = if s.shareslock then panic else ok (record s { shareslock = true })

unfoldable pub release_shareslock : Shares → Run
release_shareslock s = if s.shareslock then ok (record s { shareslock = false }) else panic

-- sharing_init
unfoldable pub sharing_init : Shares → Shares
sharing_init s = record s { shares_list = []; shareslock = false }

-- find_share; the lock is taken and dropped again round it unless it is held.
unfoldable pub find_share : (ℕ → Share) → List ℕ → ℕ → ℕ → Option ℕ
find_share share [] owner_id name = none
find_share share (p ∷ l) owner_id name =
    if ((share p).owner_id == owner_id) && ((share p).name == name)
    then some p
    else find_share share l owner_id name

-- size_of_shared_object: `none` for E_SHARED_MEM_NOT_EXISTS.
unfoldable pub size_of_shared_object : Shares → ℕ → ℕ → Option ℕ
size_of_shared_object s owner_id name = elim (find_share s.share s.shares_list owner_id name) [
  | none ↦ none
  | some p ↦ some (s.share p).size
]

-- ROUNDUP(size, PAGE_SIZE) / PAGE_SIZE
abbrev pub pages_of_share : ℕ → ℕ
pages_of_share size = roundup size page_size / page_size

-- AllocFramesStorage, whose result is 0 for NULL. An int is positive below 2 ^ 31.
unfoldable pub alloc_frames_storage : KernelHeap → ℕ → Shares → Outcome Shares (ℕ × Shares)
alloc_frames_storage h n s =
    if (n == 0) || not (ltb n (2 ^ 31))
    then ok (0, s)
    else (call_kmalloc h (n * 4 % 2 ^ 32) s >>= λ r.
        if r.0 == 0
        then ok (0, r.1)
        else ok (
          r.0,
          record r.1 {
            storage = update r.1.storage r.0 (record { length = n; frames = λ i. none });
          },
        ))

-- sizeof(struct Share)
abbrev pub share_bytes : ℕ
share_bytes = 96

-- alloc_share: 0 for NULL.
unfoldable pub alloc_share : KernelHeap → ℕ → ℕ → ℕ → Bool → Shares → Outcome Shares (ℕ × Shares)
alloc_share h owner name size writable s = call_kmalloc h share_bytes s >>= λ r.
    if r.0 == 0
    then ok (0, r.1)
    else (alloc_frames_storage h (pages_of_share size) r.1 >>= λ a.
        if a.0 == 0
        then (on_memory a.1 (h.kfree r.0 a.1.memory) >>= λ t. ok (0, t))
        else ok (
          r.0,
          record a.1 {
            share = update a.1.share r.0 (record {
              id = r.0 % 2 ^ 28;
              owner_id = owner;
              name = name;
              size = size;
              references = 1;
              is_writable = writable;
              frames_storage = a.0;
            });
          },
        ))

-- framesStorage[i] = f
abbrev pub store_frame : Shares → ℕ → ℕ → ℕ → Run
store_frame s a i f =
    if ltb i (s.storage a).length
    then ok (record s {
      storage =
          update s.storage a
            (record (s.storage a) { frames = update (s.storage a).frames i (some f) });
    })
    else fault

-- PERM_USER | PERM_PRESENT | PERM_WRITEABLE
abbrev pub share_permissions : ℕ
share_permissions = 7

-- The loop of create_shared_object from the page `i` on, with `left` turns to go, for an object
-- with its array of frames at `a`.
unfoldable pub create_pages : KernelHeap → ℕ → ℕ → ℕ → ℕ → ℕ → Shares → Run
create_pages h dir va a i zero s = ok s
create_pages h dir va a i (suc left) s = on_frame (allocate_frame s.memory) (λ f m.
    on_memory s (map_frame h dir f va share_permissions m) >>= λ t.
    store_frame t a i f >>= create_pages h dir ((va + page_size) % 2 ^ 32) a (i + 1) left)

-- create_shared_object, from what alloc_share returned on.
unfoldable pub create_allocated :
    KernelHeap → ℕ → ℕ → ℕ → ℕ → Shares → Outcome Shares (Result × Shares)
create_allocated h dir size va p s =
    if p == 0
    then (release_shareslock s >>= λ t. on_memory t (h.kfree 0 t.memory) >>= λ u. ok (no_share, u))
    else (create_pages h dir va (s.share p).frames_storage 0 (pages_of_share size) s >>= λ t.
        release_shareslock (record t { shares_list = t.shares_list ++ (p ∷ []) }) >>= λ u.
        ok (object (u.share p).id, u))

-- create_shared_object, in the page directory of the calling environment.
unfoldable pub create_shared_object :
    KernelHeap → ℕ → ℕ → ℕ → ℕ → Bool → ℕ → Shares → Outcome Shares (Result × Shares)
create_shared_object h dir owner name size writable va s = acquire_shareslock s >>= λ t.
    elim (find_share t.share t.shares_list owner name) [
      | some _ ↦ release_shareslock t >>= λ u. ok (shared_mem_exists, u)
      | none ↦
          alloc_share h owner name size writable t >>= λ r. create_allocated h dir size va r.0 r.1
    ]

-- PERM_USER, and PERM_WRITEABLE for a writable object
abbrev pub get_permissions : Bool → ℕ
get_permissions writable = if writable then 6 else 4

-- framesStorage[i], followed as a pointer
abbrev pub stored_frame : Shares → ℕ → ℕ → Outcome Shares ℕ
stored_frame s a i =
    if ltb i (s.storage a).length
    then elim ((s.storage a).frames i) [ none ↦ fault | some f ↦ ok f ]
    else fault

-- The loop of get_shared_object from the page `i` on, with `left` turns to go.
unfoldable pub get_pages_of_share : KernelHeap → ℕ → ℕ → ℕ → Bool → ℕ → ℕ → Shares → Run
get_pages_of_share h dir va a writable i zero s = ok s
get_pages_of_share h dir va a writable i (suc left) s = stored_frame s a i >>= λ f.
    on_memory s
      (map_frame h dir f ((va + i * page_size) % 2 ^ 32) (get_permissions writable) s.memory)
    >>= get_pages_of_share h dir va a writable (i + 1) left

-- get_shared_object, from what find_share returned on.
unfoldable pub get_found : KernelHeap → ℕ → ℕ → Option ℕ → Shares → Outcome Shares (Result × Shares)
get_found h dir va none s = release_shareslock s >>= λ t. ok (shared_mem_not_exists, t)
get_found h dir va (some p) s =
    let o = s.share p in
    get_pages_of_share h dir va o.frames_storage o.is_writable 0 (pages_of_share o.size) s >>= λ t.
    release_shareslock (record t {
      share =
          update t.share p
            (record (t.share p) { references = ((t.share p).references + 1) % 2 ^ 32 });
    })
    >>= λ u. ok (object (u.share p).id, u)

unfoldable pub get_shared_object :
    KernelHeap → ℕ → ℕ → ℕ → ℕ → Shares → Outcome Shares (Result × Shares)
get_shared_object h dir owner name va s =
    acquire_shareslock s >>= λ t. get_found h dir va (find_share t.share t.shares_list owner name) t
