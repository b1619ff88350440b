-- ===== src/PageFile/Partition.antt =====
-- kern/disk/pagefile_manager.c: every frame of the page file is free or is held in one place.
use fos_operational_system_f.Common.{
  ℕ, zero, suc, ◌+◌, ◌<◌, ◌≡◌, ◌≢◌, ◌⊎◌, inl, inr, sym, ap, ◌∙◌, true, false, ◌||◌, List, [], ◌∷◌,
  arith, ◌==◌, leb, ltb, ◌&&◌, if◌then◌else◌, update, contains, Distinct, Bool-cases, eq→==, ne→==,
  subst,
}
use native.Mathlib.Decide.{ℕ_discrete}
use fos_operational_system_f.PageFile.State.{pages_per_file}
use fos_operational_system_f.PageFile.Pages.{insert_disk_frames}

-- Two families of places that hold disk frames, where 0 is none, and the frames that are free.
pub record Partition (pages tables : ℕ → ℕ) (free : List ℕ) : Type 0 where
  pub page_real : (s : ℕ) → pages s < pages_per_file
  pub table_real : (t : ℕ) → tables t < pages_per_file
  pub page_single : (s t : ℕ) → pages s ≢ 0 → pages s ≡ pages t → s ≡ t
  pub table_single : (s t : ℕ) → tables s ≢ 0 → tables s ≡ tables t → s ≡ t
  pub apart : (s t : ℕ) → pages s ≢ 0 → pages s ≢ tables t
  pub page_taken : (s : ℕ) → contains (pages s) free ≡ false
  pub table_taken : (t : ℕ) → contains (tables t) free ≡ false
  pub distinct : Distinct free
  pub free_real : (d : ℕ) → contains d free ≡ true → (0 < d) × (d < pages_per_file)
  pub complete :
      (d : ℕ)
      → 0 < d
      → d < pages_per_file
      → (contains d free ≡ true) ⊎ (((s : ℕ) × (pages s ≡ d)) ⊎ ((t : ℕ) × (tables t ≡ d)))

-- Nothing distinguishes the two families.
pub Partition-swap :
    (pages tables : ℕ → ℕ) (free : List ℕ)
    → Partition pages tables free
    → Partition tables pages free
Partition-swap pages tables free v = record {
  page_real = v.table_real;
  table_real = v.page_real;
  page_single = v.table_single;
  table_single = v.page_single;
  apart = λ s t n e. v.apart t s (λ z. n (e ∙ z)) (sym e);
  page_taken = v.table_taken;
  table_taken = v.page_taken;
  distinct = v.distinct;
  free_real = v.free_real;
  complete = λ d p q. elim (v.complete d p q) [
    | inl h ↦ inl h
    | inr (inl h) ↦ inr (inr h)
    | inr (inr h) ↦ inr (inl h)
  ];
}

-- A place that holds nothing takes the first free frame.
pub take-Partition :
    (pages tables : ℕ → ℕ) (d s : ℕ) (free : List ℕ)
    → Partition pages tables (d ∷ free)
    → pages s ≡ 0
    → Partition (update pages s d) tables free
unfolding contains
take-Partition pages tables d s free v z = record {
  page_real = λ t. ground (arith, v.page_real t, v.free_real d);
  table_real = v.table_real;
  page_single = λ t u. ground (arith, v.page_single t u, v.page_taken t, v.page_taken u);
  table_single = v.table_single;
  apart = λ t u. ground (arith, v.apart t u, v.table_taken u);
  page_taken = λ t. ground (arith, v.page_taken t, v.distinct.0);
  table_taken = λ t. ground (arith, v.table_taken t);
  distinct = v.distinct.1;
  free_real = λ e h. v.free_real e (ground (arith, h));
  complete = λ e p q. elim (ℕ_discrete d e) [
    | yes h ↦ inr (inl (s, ground (arith, h)))
    | no n ↦ elim (v.complete e p q) [
      | inl h ↦ inl (ground (arith, h, n))
      | inr (inl (t, h)) ↦ inr (inl (t, ground (arith, h, z, p)))
      | inr (inr h) ↦ inr (inr h)
    ]
  ];
}

contains-zero :
    {pages tables : ℕ → ℕ} {free : List ℕ} → Partition pages tables free → contains 0 free ≡ false
contains-zero {free = free} v = elim (Bool-cases (contains 0 free)) [
  | inl h ↦ absurd (omega (arith, (v.free_real 0 h).0))
  | inr h ↦ h
]

-- A place gives its frame back.
pub give-Partition :
    (pages tables : ℕ → ℕ) (s : ℕ) (free : List ℕ)
    → Partition pages tables free
    → pages s ≢ 0
    → Partition (update pages s 0) tables (pages s ∷ free)
unfolding contains
give-Partition pages tables s free v z = record {
  page_real = λ t. ground (arith, v.page_real t);
  table_real = v.table_real;
  page_single = λ t u. ground (arith, v.page_single t u);
  table_single = v.table_single;
  apart = λ t u. ground (arith, v.apart t u);
  page_taken = λ t. elim (ℕ_discrete s t) [
    | yes h ↦ ground (arith, h, z, contains-zero v)
    | no n ↦ ground (arith, n, v.page_taken t, z, v.page_single s t z)
  ];
  table_taken = λ t. ground (arith, v.table_taken t, v.apart s t);
  distinct = (v.page_taken s, v.distinct);
  free_real = λ e h. ground (arith, v.free_real e, v.page_real s);
  complete = λ e p q. elim (ℕ_discrete (pages s) e) [
    | yes h ↦ inl (ground (arith, h))
    | no n ↦ elim (v.complete e p q) [
      | inl h ↦ inl (ground (arith, h))
      | inr (inl (t, h)) ↦ inr (inl (t, ground (arith, h, n)))
      | inr (inr h) ↦ inr (inr h)
    ]
  ];
}

pub Partition-ext :
    (pages other tables : ℕ → ℕ) (free : List ℕ)
    → ((s : ℕ) → other s ≡ pages s)
    → Partition pages tables free
    → Partition other tables free
Partition-ext pages other tables free h v =
    let q : pages ≡ other = λ i s. sym (h s) i in subst (λ f. Partition f tables free) q v

-- A place gives its frame back, or has none.
pub clear-Partition :
    (pages tables : ℕ → ℕ) (s : ℕ) (free : List ℕ)
    → Partition pages tables free
    → Partition (update pages s 0) tables (if pages s == 0 then free else pages s ∷ free)
clear-Partition pages tables s free v = elim (ℕ_discrete (pages s) 0) [
  | yes z ↦
      rw (eq→== (pages s) 0 z)
        (Partition-ext pages (update pages s 0) tables free (λ t. ground (arith, z)) v)
  | no n ↦ rw (ne→== (pages s) 0 n) (give-Partition pages tables s free v n)
]

-- The loop of initialize_disk_page_file puts every frame from `i` on in the free list, once.
insert_disk_frames_lem :
    (i left : ℕ) (l : List ℕ)
    → Distinct l
    → ((d : ℕ) → contains d l ≡ true → d < i)
    → Distinct (insert_disk_frames i left l)
      × ((d : ℕ)
          → contains d (insert_disk_frames i left l)
            ≡ (leb i d && ltb d (i + left) || contains d l))
unfolding insert_disk_frames contains
insert_disk_frames_lem i zero l u h = (u, λ d. ground (arith, h d))
insert_disk_frames_lem i (suc left) l u h =
    let fresh : contains i l ≡ false = ground (arith, h i) in
    let (v, k) =
      insert_disk_frames_lem (i + 1) left (i ∷ l) (fresh, u) (λ d e. ground (arith, h d, e)) in
    (v, λ d. ground (arith, k d))

-- No page and no table holds a frame then.
pub insert_disk_frames-Partition :
    (n : ℕ) (pages tables : ℕ → ℕ)
    → 1 + n ≡ pages_per_file
    → ((s : ℕ) → pages s ≡ 0)
    → ((t : ℕ) → tables t ≡ 0)
    → Partition pages tables (insert_disk_frames 1 n [])
unfolding contains
insert_disk_frames-Partition n pages tables e p t =
    let (u, k) = insert_disk_frames_lem 1 n [] tt (λ d h. ground (arith, h)) in
    record {
      page_real = λ s. ground (arith, p s);
      table_real = λ s. ground (arith, t s);
      page_single = λ r s h _. absurd (h (p r));
      table_single = λ r s h _. absurd (h (t r));
      apart = λ r s h _. h (p r);
      page_taken = λ s. ground (arith, p s, k 0);
      table_taken = λ s. ground (arith, t s, k 0);
      distinct = u;
      free_real = λ d h. ground (arith, h, e, k d);
      complete = λ d a b. inl (ground (arith, e, k d));
    }

-- The last frame put in the list is its head.
pub insert_disk_frames_last :
    (i n : ℕ) (l : List ℕ) → insert_disk_frames i (suc n) l ≡ (i + n) ∷ insert_disk_frames i n l
unfolding insert_disk_frames
insert_disk_frames_last i zero l = let e : i ≡ i + 0 = omega arith in ap (λ k. k ∷ l) e
insert_disk_frames_last i (suc n) l =
    let e : i + 1 + n ≡ i + suc n = omega arith in
    insert_disk_frames_last (i + 1) n (i ∷ l) ∙ ap (λ k. k ∷ insert_disk_frames (i + 1) n (i ∷ l)) e
