-- ===== src/PageFile/Examples.antt =====
-- kern/disk/pagefile_manager.c: the theorems at a small machine.
use fos_operational_system_f.Common.{
  ◌∷◌, ℕ, ◌*◌, ◌≡◌, ◌≢◌, refl, inl, inr, true, [], arith, ◌==◌, if◌then◌else◌, update, contains,
}
use fos_operational_system_f.Common.Outcome.{◌>>=◌}
use fos_operational_system_f.Common.Ends.{Ends, Returns}
use fos_operational_system_f.Frames.Memories.{example_memory}
use fos_operational_system_f.PageFile.State.{PageFile, is_mapped, frame_at}
use fos_operational_system_f.PageFile.Pages.{
  pf_add_env_page, pf_read_env_page, initialize_disk_page_file, insert_disk_frames,
}
use fos_operational_system_f.PageFile.Partition.{Partition}
use fos_operational_system_f.PageFile.Valid.{FileValid}
use fos_operational_system_f.PageFile.Kept.{ValidNext}
use fos_operational_system_f.PageFile.Invariant.{
  add_page, perform, perform-FileValid, initialize_disk_page_file-FileValid,
}
use fos_operational_system_f.PageFile.Devices.{
  small_disk, small_disk-IsReliable, one_page_heap, frame_heap, frame_heap-GivesPages, first_env,
}
use fos_operational_system_f.PageFile.ReadBack.{CanRead, pf_read_env_page-pf_add_env_page}

-- Frame 1 is at 0x1000 and frame 2 at 0x2000, both present, writeable and the user's.
abbrev no_pages : PageFile (ℕ → ℕ)
no_pages = record {
  memory = record example_memory {
    number_of_frames = 5;
    free_frame_list = 3 ∷ 4 ∷ [];
    entries = λ s. if s == 1 then 0x1007 else if s == 2 then 0x2007 else 0;
  };
  bytes = λ f. f * 11;
  cr3 = 0;
  disk = λ s. 0;
  disk_free_frame_list = [];
  envs = λ e. first_env;
  disk_tables = λ t. 0;
  page_dfns = λ s. 0;
  table_dfns = λ t. 0;
}

abbrev booted : PageFile (ℕ → ℕ)
booted = initialize_disk_page_file no_pages

booted-FileValid : FileValid booted
booted-FileValid = initialize_disk_page_file-FileValid _ (λ s. refl) (λ t. refl) (λ t. refl)

booted-CanRead : CanRead 0 0x1000 booted
unfolding initialize_disk_page_file is_mapped
booted-CanRead = record {
  current = refl;
  mapped = refl;
  writeable = refl;
  start = refl;
  word = omega arith;
  user = omega arith;
}

booted-mapped : is_mapped 0x2000 booted ≡ true
unfolding initialize_disk_page_file is_mapped
booted-mapped = refl

booted-free : booted.disk_free_frame_list ≢ []
unfolding contains initialize_disk_page_file
booted-free e = elim (booted-FileValid.partition.complete 1 (omega arith) (omega arith)) [
  | inl h ↦ ground (arith, rw e at h)
  | inr (inl (s, z)) ↦ ground (arith, z)
  | inr (inr (t, z)) ↦ ground (arith, z)
]

perform-FileValid_example :
    Ends FileValid ValidNext
      (perform small_disk one_page_heap 20 0x2000 0 (add_page 0x1000 0x2000) booted)
perform-FileValid_example =
    perform-FileValid small_disk one_page_heap 20 0x2000 0 (add_page 0x1000 0x2000) booted
      booted-FileValid (omega arith)

pf_read_env_page-pf_add_env_page_example :
    Returns
      (λ q.
        (q.0 ≡ 0) × (q.1.bytes (frame_at 0x1000 booted) ≡ booted.bytes (frame_at 0x2000 booted)))
      (pf_add_env_page small_disk frame_heap 0 0x1000 0x2000 booted >>= λ q.
        pf_read_env_page small_disk frame_heap 0 0x1000 q.1)
unfolding initialize_disk_page_file
pf_read_env_page-pf_add_env_page_example =
    pf_read_env_page-pf_add_env_page small_disk small_disk-IsReliable frame_heap
      (frame_heap-GivesPages 4096) 0 0x1000 0x2000 booted booted-FileValid booted-CanRead
      booted-mapped booted-free (omega arith)

-- Process 0 has its page at 0x1000 in the last disk frame.
abbrev stored : PageFile (ℕ → ℕ)
stored = record {
  memory = example_memory;
  bytes = λ f. f * 11;
  cr3 = 0;
  disk = λ s. 0;
  disk_free_frame_list = insert_disk_frames 1 133118 [];
  envs = λ e. record first_env { disk_env_pgdir = 0xF6000000 };
  disk_tables = update (λ t. 0) 0 0xF6001000;
  page_dfns = update (λ s. 0) 1 133119;
  table_dfns = λ t. 0;
}

initialize_disk_page_file-FileValid_example : FileValid (initialize_disk_page_file no_pages)
initialize_disk_page_file-FileValid_example =
    initialize_disk_page_file-FileValid no_pages (λ s. refl) (λ t. refl) (λ t. refl)
