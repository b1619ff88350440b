-- ===== src/Space/Steady.antt =====
-- kern/mem/paging_helpers.c, kern/cpu/sched.c: what works on working sets never leaves its caller.
use fos_operational_system_f.Common.{
  ℕ, ◌+◌, ◌/◌, ◌^◌, update, ◌≡◌, refl, Option, none, some, List, [], ◌∷◌,
}
use fos_operational_system_f.Common.Outcome.{Outcome}
use fos_operational_system_f.Common.Ends.{Ends, Ends-ok, Ends-panic, Ends-if, Ends-bind}
use fos_operational_system_f.Mmu.{page_size, perm_used, has_bit}
use fos_operational_system_f.Space.{Space, pt_clear_bit, pt_get_page_permissions}
use fos_operational_system_f.Space.Aging.{age_element, age_elements}

module _ {S : Type 0} (P : S → Type 0) where
  abbrev pub Stays : {A : Type 0} → Outcome S A → Type 0
  Stays {A = A} o = Ends P (λ (a : A). Unit {0}) o

  pub pt_clear_bit-Stays : (s : Space) (va bit : ℕ) → Stays (pt_clear_bit s va bit)
  unfolding pt_clear_bit
  pt_clear_bit-Stays s va bit = go (s.pte (va / page_size)) refl
    where
      go : (o : Option ℕ) → s.pte (va / page_size) ≡ o → Stays (pt_clear_bit s va bit)
      go none z = rw (pt_clear_bit, z) Ends-panic
      go (some n) z = rw (pt_clear_bit, z) (Ends-ok _ tt)

  age_element-Stays : (s : Space) (p : ℕ) → Stays (age_element {S = S} s p)
  unfolding age_element
  age_element-Stays s p =
      let w = s.wse p in
      let stamped : Space = record s {
        wse = update s.wse p (record w { time_stamp = w.time_stamp / 2 + 2 ^ 31 });
      } in
      Ends-if (has_bit perm_used (pt_get_page_permissions s (s.wse p).virtual_address)) _ _
        (λ u. pt_clear_bit-Stays stamped (s.wse p).virtual_address perm_used) (λ u. Ends-ok _ tt)

  pub age_elements-Stays : (ps : List ℕ) (s : Space) → Stays (age_elements {S = S} ps s)
  unfolding age_elements
  age_elements-Stays [] s = Ends-ok s tt
  age_elements-Stays (p ∷ ps) s =
      Ends-bind (λ r. Unit {0}) (age_element s p) (age_elements ps) (age_element-Stays s p)
        (λ t u. age_elements-Stays ps t)
