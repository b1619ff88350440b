-- ===== src/Fault/PageIn.antt =====
-- kern/trap/fault_handler.c, page_fault_handler: placement brings the page in.
use fos_operational_system_f.Common.{
  ◌≢◌, ℕ, suc, ◌<◌, ◌≡◌, ◌⊎◌, true, false, Option, none, some, List, [], ◌∷◌, ◌++◌, ◌==◌,
  if◌then◌else◌, length,
}
use fos_operational_system_f.Common.Outcome.{Outcome, ok, ◌>>=◌}
use fos_operational_system_f.Mmu.{page_size, rounddown}
use fos_operational_system_f.Frames.State.{slot, pdx, initialize_frame_info}
use fos_operational_system_f.Frames.Table.{holds_frame}
use fos_operational_system_f.Frames.Map.{KernelHeap, link_frame}
use fos_operational_system_f.PageFile.State.{Ide, PageFile, user_top, is_mapped, frame_at}
use fos_operational_system_f.PageFile.Pages.{may_grow}
use fos_operational_system_f.PageFile.Valid.{FileValid}
use fos_operational_system_f.PageFile.Contents.{IsReliable, view}
use fos_operational_system_f.PageFile.Placed.{GivesPages}
use fos_operational_system_f.Fault.Clock.{first}
use fos_operational_system_f.Fault.Process.{
  Process, on_memory, directory, insert_tail, reset_last, env_page_ws_list_create_element,
}

-- The frame `f` linked at `va` by the process `e`.
abbrev with_frame : {S : Type 0} → ℕ → ℕ → ℕ → ℕ → List ℕ → Process S → Process S
with_frame e va perm f l s =
    let m = initialize_frame_info (record s.file.memory { free_frame_list = l }) f in
    on_memory s (link_frame (directory e s) f va perm m)

-- What a page holds that is read over the content `old`.
abbrev pub content : Option ℕ → ℕ → ℕ
content none old = old
content (some b) old = b

-- The process `q` is `s` with the page of `va` in the frame `f`, at the end of the working set.
pub record BroughtIn {D : Ide} (r : IsReliable D) (e va f : ℕ) (s q : Process D.State)
    : Type 0 where
  pub pointer : ℕ
  pub listed : q.page_ws_list ≡ s.page_ws_list ++ pointer ∷ []
  pub size : length q.page_ws_list ≡ suc (length s.page_ws_list)
  pub same_max : q.page_ws_max_size ≡ s.page_ws_max_size
  pub address : (q.wse pointer).virtual_address ≡ rounddown va page_size
  pub mapped : is_mapped (rounddown va page_size) q.file ≡ true
  pub frame : frame_at (rounddown va page_size) q.file ≡ f
  pub holds :
      q.file.bytes f ≡ content (view r s.file (slot e (rounddown va page_size))) (s.file.bytes f)
  pub last :
      q.page_last_ws_element
      ≡ (if length q.page_ws_list == q.page_ws_max_size then first q.page_ws_list else none)

module _ {D : Ide} (r : IsReliable D) (K : KernelHeap) (element : ℕ) (G : GivesPages K element)
    (e va f : ℕ) (lt : va < user_top) where
  -- The element of the page, and the clock pointer.
  abbrev finish : Process D.State → Outcome (Process D.State) (Process D.State)
  finish t =
      env_page_ws_list_create_element K element va t
      >>= (λ u. ok (insert_tail u.0 u.1))
      >>= (λ u. ok (reset_last u))

module _ {D : Ide} (r : IsReliable D) (K : KernelHeap) (element : ℕ) (G : GivesPages K element)
    (e va f : ℕ) (l : List ℕ) (s : Process D.State) where
  -- What placement relies on: the process is running, `f` is the first free frame, and the page
  -- has a table, no frame, and a place in the page file or the right to be new; once the page has
  -- the frame, the heap has room for the page's element, whatever bits its entry has.
  pub record CanPlace : Type 0 where
    pub valid : FileValid s.file
    pub current : directory e s ≡ s.file.cr3
    pub free : s.file.memory.free_frame_list ≡ f ∷ l
    pub physical : f < 0x100000
    pub table : s.file.memory.has_table (directory e s) (pdx va) ≡ true
    pub empty : holds_frame (s.file.memory.entries (slot (directory e s) va)) ≡ false
    pub user : va < user_top
    pub allowed :
        ((b : ℕ) × (view r s.file (slot e (rounddown va page_size)) ≡ some b))
        ⊎ ((view r s.file (slot e (rounddown va page_size)) ≡ none) × (may_grow element va ≡ true))
    pub room :
        (entries : ℕ → ℕ)
        → ((x : ℕ)
            → x ≢ slot (directory e s) va
            → entries x ≡ (with_frame e va 7 f l s).file.memory.entries x)
        → G.Room 1 (record (with_frame e va 7 f l s).file.memory { entries = entries })
