-- ===== src/Fault/Steady.antt =====
-- kern/trap/fault_handler.c: what the steps of page_fault_handler leave of the working set.
use fos_operational_system_f.Common.{
  ℕ, zero, suc, ◌≤◌, ◌≡◌, refl, Bool, true, false, not, ◌&&◌, Option, none, some, List, [], ◌∷◌,
  ◌++◌, arith, ◌==◌, ltb, length, length-append, append-nil, append_assoc, erase, contains,
}
use fos_operational_system_f.Common.Outcome.{Outcome, ok, leaves, panic, fault, ◌>>=◌, to_scheduler}
use fos_operational_system_f.Common.Ends.{
  Ends, Ends-ok, Ends-leaves, Ends-panic, Ends-fault, Ends-if, Ends-bind, Ends-assert,
}
use fos_operational_system_f.PageFile.State.{
  Ide, PageFile, lift_to, user_top, e_page_not_exist_in_pf,
}
use fos_operational_system_f.PageFile.Pages.{may_grow, pf_update_env_page}
use fos_operational_system_f.Frames.State.{allocate_frame, free_frame}
use fos_operational_system_f.Frames.Table.{get_frame_info}
use fos_operational_system_f.Frames.Map.{KernelHeap, map_frame, unmap_frame}
use fos_operational_system_f.Fault.Process.{
  Process, on_file, on_memory, set_file, directory, drop_frame, check_read, map_new_frame,
  env_page_ws_list_create_element, new_element, evict, write_back,
}
use fos_operational_system_f.Fault.Replace.{rotate_out}
use fos_operational_system_f.Fault.Clock.{clock_search, clock_next}
use fos_operational_system_f.Space.Steady.{Stays, pt_clear_bit-Stays}
use fos_operational_system_f.Space.{Space, pt_clear_bit, pt_get_page_permissions}
use fos_operational_system_f.Mmu.{has_bit, perm_used}

-- Taking the victim out of the circle keeps the order of the others, which begins behind it, and
-- takes a round for each element before it.
pub rotate_out_lem :
    (fuel v : ℕ) (xs ys : List ℕ)
    → contains v xs ≡ false
    → suc (length xs) ≤ fuel
    → rotate_out fuel v (xs ++ v ∷ ys) ≡ some (ys ++ xs)
unfolding rotate_out contains
rotate_out_lem zero v xs ys h le = absurd (omega (arith, le))
rotate_out_lem (suc fuel) v [] ys h le = ground (arith, append-nil ys)
rotate_out_lem (suc fuel) v (x ∷ xs) ys h le =
    let step = rotate_out_lem fuel v xs (ys ++ x ∷ []) in
    ground (arith, step, append_assoc xs (v ∷ ys) (x ∷ []), append_assoc ys (x ∷ []) xs)

pub length-rotate_out :
    (fuel v : ℕ) (l r : List ℕ) → rotate_out fuel v l ≡ some r → suc (length r) ≡ length l
unfolding rotate_out
length-rotate_out zero v l r e = ground (arith, e)
length-rotate_out (suc fuel) v [] r e = ground (arith, e)
length-rotate_out (suc fuel) v (x ∷ xs) r e =
    ground (arith, e, length-rotate_out fuel v (xs ++ x ∷ []) r, length-append xs (x ∷ []))

pub length-erase : (a : ℕ) (l : List ℕ) → contains a l ≡ true → suc (length (erase a l)) ≡ length l
unfolding contains erase
length-erase a [] h = ground (arith, h)
length-erase a (x ∷ xs) h = ground (arith, h, length-erase a xs)

module _ {S : Type 0} (l : List ℕ) (m : ℕ) where
  -- The working set and its bound are as given.
  abbrev pub Same : Process S → Type 0
  Same s = (s.page_ws_list ≡ l) × (s.page_ws_max_size ≡ m)

  pub on_file-Ends :
      {A : Type 0} (s : Process S) (o : Outcome (PageFile S) A)
      → Same s
      → Ends Same (λ a. Unit {0}) (on_file s o)
  on_file-Ends s (ok a) h = Ends-ok a tt
  on_file-Ends s (leaves x p) h = Ends-leaves x _ h
  on_file-Ends s panic h = Ends-panic
  on_file-Ends s fault h = Ends-fault

  on_file-then :
      {A B : Type 0} {Q : B → Type 0} (s : Process S) (o : Outcome (PageFile S) A)
      (f : A → Outcome (Process S) B)
      → Same s
      → ((a : A) → Ends Same Q (f a))
      → Ends Same Q (on_file s o >>= f)
  on_file-then s o f h k =
      Ends-bind (λ a. Unit {0}) (on_file s o) f (on_file-Ends s o h) (λ a u. k a)

  module _ (K : KernelHeap) (element : ℕ) where
    drop_frame-Same :
        (e va f : ℕ) (s : Process S) → Same s → Ends Same Same (drop_frame K element e va f s)
    unfolding drop_frame
    drop_frame-Same e va f s h =
        on_file-then s (lift_to s.file (unmap_frame (directory e s) va s.file.memory)) _ h (λ m.
          on_file-then (on_memory s m) (lift_to s.file (free_frame f m)) _ h
            (λ n. Ends-leaves to_scheduler (on_memory s n) h))

    pub map_new_frame-Same :
        (e va perm : ℕ) (s : Process S)
        → Same s
        → Ends Same (λ r. Same r.1) (map_new_frame K element e va perm s)
    unfolding map_new_frame
    map_new_frame-Same e va perm s h =
        on_file-then s (lift_to s.file (allocate_frame s.file.memory)) _ h (λ r.
          on_file-then s (lift_to s.file (map_frame K (directory e s) r.0 va perm r.1)) _ h
            (λ m. Ends-ok (r.0, on_memory s m) h))

    pub create_element-Same :
        (va : ℕ) (s : Process S)
        → Same s
        → Ends Same (λ r. Same r.1) (env_page_ws_list_create_element K element va s)
    unfolding env_page_ws_list_create_element new_element
    create_element-Same va s h = Ends-assert (ltb va user_top) _ (
        on_file-then s (lift_to s.file (K.kmalloc element s.file.memory)) _ h (λ r.
          Ends-if (r.0 == 0) _ _ (λ z. Ends-panic)
            (λ z. Ends-ok (r.0, new_element r.0 va (on_memory s r.1)) h)))

module _ (D : Ide) (K : KernelHeap) (element : ℕ) (l : List ℕ) (m : ℕ) where
  pub check_read-Same :
      (e va f : ℕ) (s : Process D.State) (r : ℕ × PageFile D.State)
      → Same l m s
      → Ends (Same l m) (Same l m) (check_read D K element e va f s r)
  check_read-Same e va f s r h =
      Ends-if ((r.0 == e_page_not_exist_in_pf) && not (may_grow element va)) _ _
        (λ b. drop_frame-Same l m K element e va f (set_file s r.1) h)
        (λ b. Ends-ok (set_file s r.1) h)

  pub evict-Same :
      (zero_page e v : ℕ) (s : Process D.State)
      → Same l m s
      → Ends (Same l m) (Same l m) (evict D K element zero_page e v s)
  unfolding evict write_back
  evict-Same zero_page e v s h =
      Ends-bind (Same l m) (write_back D K element zero_page e (s.wse v).virtual_address s) _
        (Ends-if _ _ _
          (λ b.
            on_file-then l m s
              (lift_to s.file
                (get_frame_info (directory e s) (s.wse v).virtual_address s.file.memory))
              _ h
              (λ f.
                on_file-then l m s
                  (pf_update_env_page D K element zero_page e (s.wse v).virtual_address s.file) _ h
                  (λ r. Ends-ok (set_file s r.1) h)))
          (λ b. Ends-ok s h))
        (λ t i.
          on_file-then l m t
            (lift_to t.file (unmap_frame (directory e t) (s.wse v).virtual_address t.file.memory)) _
            i (λ n. Ends-ok (on_memory t n) i))

module _ {S : Type 0} (P : S → Type 0) where
  -- The search for a victim never leaves its caller. One round, from what holds of those that follow it.
  clock_round-Stays :
      (fuel : ℕ)
      → ((s : Space) → Stays P (clock_search {S = S} fuel s))
      → (s : Space) (o : Option ℕ) → s.page_last_ws_element ≡ o
      → Stays P (clock_search {S = S} (suc fuel) s)
  unfolding clock_search
  clock_round-Stays fuel k s none z = rw (clock_search, z) Ends-fault
  clock_round-Stays fuel k s (some p) z =
      used (has_bit perm_used (pt_get_page_permissions s (s.wse p).virtual_address)) refl
    where
      used :
          (b : Bool)
          → has_bit perm_used (pt_get_page_permissions s (s.wse p).virtual_address) ≡ b
          → Stays P (clock_search {S = S} (suc fuel) s)
      used true u =
          rw (clock_search, z)
            (rw u (
              Ends-bind (λ r. Unit {0}) (pt_clear_bit s (s.wse p).virtual_address perm_used) _
                (pt_clear_bit-Stays P s (s.wse p).virtual_address perm_used)
                (λ t i. k (record t { page_last_ws_element = clock_next s.page_ws_list p }))))
      used false u = rw (clock_search, z) (rw u (Ends-ok (p, s) tt))

  pub clock_search-Stays : (fuel : ℕ) (s : Space) → Stays P (clock_search {S = S} fuel s)
  unfolding clock_search
  clock_search-Stays zero s = Ends-fault
  clock_search-Stays (suc fuel) s =
      clock_round-Stays fuel (clock_search-Stays fuel) s s.page_last_ws_element refl
