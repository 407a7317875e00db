-- ===== src/Mmap/Tests.antt =====
-- Runs of the calls of kernel/syscall/sys_memory.c on a process with a break, pages that are a list, and
-- an empty table.
use exec_aegis.Base.{
  ℕ, ◌+◌, ◌*◌, ◌≡◌, ◌≤◌, ◌<◌, ◌≢◌, refl, Option, none, some, List, [], ◌∷◌, length, get_or, ◌==◌,
  if◌then◌else◌, arith,
}
use exec_aegis.Ranges.{Range, no_range, alloc, best_fit, take_from, append_range, remove_at}
use exec_aegis.Ranges.Cover.{cover}
use exec_aegis.Vma
use exec_aegis.Vma.Lookup.{inside, lookup}
use exec_aegis.Mmap.{
  Proc, UserPages, mmap_free_alloc, map_zeroed, unmap_raw, mmap_free_insert, insert_loop,
}
use exec_aegis.Mmap.Calls.{
  File, placed, place_anywhere, bad_arguments, has, insert_range, advance_base, remove_range,
}
use exec_aegis.Mmap.System.{
  sys_mmap, sys_munmap, sys_brk, mmap_placed, mmap_private, has_shared, shared_at,
}
use exec_aegis.Mmap.Outcome.{Ends}
use exec_aegis.Mmap.Place.{IsValid}
use exec_aegis.Mmap.Histories.{
  Machine, Reachable, start, next_step, mmaps, munmaps, mappings_disjoint,
}
use exec_aegis.Mmap.Table.{mmap-munmap}
use exec_aegis.Mmap.Brk.{BrkValid, Answers, sys_brk-Answers}
use exec_aegis.Mmap.Twice.{munmap_twice}

-- Pages as pairs of an address and a frame; frames are never reused.
abbrev Pages : Type 0
Pages = List (ℕ × ℕ)

abbrev frame_of : ℕ → Pages → ℕ
frame_of va [] = 0
frame_of va ((x, f) ∷ ps) = if x == va then f else frame_of va ps

abbrev without : ℕ → Pages → Pages
without va [] = []
without va ((x, f) ∷ ps) = let rest = without va ps in if x == va then rest else (x, f) ∷ rest

abbrev page_ops : UserPages Pages
page_ops = record {
  phys_of = frame_of;
  phys_of_raw = frame_of;
  unmap = λ va m. some (without va m);
  map = λ va phys flags m. some ((va, phys) ∷ m);
  set_prot = λ va flags m. m;
  zero_page = λ phys m. m;
  write_bytes = λ va bytes m. m;
  alloc_page = λ m. (m, 4096 * (1 + length m));
  free_page = λ phys m. some m;
}

abbrev no_files : ℕ → Option File
no_files fd = none

abbrev process : Proc
process = record {
  brk = 6291456;
  brk_base = 6291456;
  mmap_base = 123145302310912;
  mmap_free = [];
  ranges = record { vma_table = some 1; entries = []; capacity = 170; vma_refcount = 1 };
}

-- The first `mmap_base`
abbrev low : ℕ
low = 123145302310912

-- The process with `n` pages given out, a free list and entries for what is mapped.
abbrev space : ℕ → List Range → List Vma.Entry → Proc
space n free entries = record process {
  mmap_base = low + n * 4096;
  mmap_free = free;
  ranges = record { vma_table = some 1; entries = entries; capacity = 170; vma_refcount = 1 };
}

-- A read-write anonymous mapping.
abbrev entry : ℕ → ℕ → Vma.Entry
entry base pages = record { base = base; len = pages * 4096; prot = 3; kind = 5 }

-- Two pages and then one; the first mapping is given back; one page again, from what was given back.
abbrev two_pages : Machine Pages
two_pages = record {
  proc = space 2 [] (entry low 2 ∷ []);
  pages = (low + 4096, 8192) ∷ (low, 4096) ∷ [];
  live = record { base = low; size = 8192 } ∷ [];
}

abbrev three_pages : Machine Pages
three_pages = record {
  proc = space 3 [] (entry low 3 ∷ []);
  pages = (low + 8192, 12288) ∷ two_pages.pages;
  live = record { base = low + 8192; size = 4096 } ∷ two_pages.live;
}

abbrev one_left : Machine Pages
one_left = record {
  proc = space 3 (record { base = low; size = 8192 } ∷ []) (entry (low + 8192) 1 ∷ []);
  pages = (low + 8192, 12288) ∷ [];
  live = record { base = low + 8192; size = 4096 } ∷ [];
}

abbrev one_reused : Machine Pages
one_reused = record {
  proc =
      space 3 (record { base = low + 4096; size = 4096 } ∷ [])
        (entry low 1 ∷ entry (low + 8192) 1 ∷ []);
  pages = (low, 8192) ∷ one_left.pages;
  live = record { base = low; size = 4096 } ∷ one_left.live;
}

abbrev nothing : Machine Pages
nothing = record { proc = process; pages = []; live = [] }

first_returns :
    sys_mmap page_ops no_files 0 5000 3 34 0 0 process []
    ≡ some (two_pages.proc, two_pages.pages, low)
unfolding sys_mmap bad_arguments has mmap_placed place_anywhere mmap_free_alloc alloc best_fit
    mmap_private map_zeroed insert_range advance_base Vma.insert Vma.with_table Vma.insert_entries
    Vma.insert_new Vma.insert_at
first_returns = refl

second_returns :
    sys_mmap page_ops no_files 0 4096 3 34 0 0 two_pages.proc two_pages.pages
    ≡ some (three_pages.proc, three_pages.pages, low + 8192)
unfolding sys_mmap bad_arguments has mmap_placed place_anywhere mmap_free_alloc alloc best_fit
    mmap_private map_zeroed insert_range advance_base Vma.insert Vma.with_table Vma.insert_entries
    Vma.merge_next
second_returns = refl

third_returns :
    sys_munmap page_ops low 5000 three_pages.proc three_pages.pages
    ≡ some (one_left.proc, one_left.pages, 0)
unfolding sys_munmap unmap_raw has_shared remove_range mmap_free_insert Vma.remove insert_loop
    Vma.with_table append_range Vma.remove_entries shared_at
third_returns = refl

fourth_returns :
    sys_mmap page_ops no_files 0 4096 3 34 0 0 one_left.proc one_left.pages
    ≡ some (one_reused.proc, one_reused.pages, low)
unfolding sys_mmap bad_arguments has mmap_placed place_anywhere mmap_free_alloc alloc best_fit
    take_from mmap_private map_zeroed insert_range advance_base Vma.insert Vma.with_table
    Vma.insert_entries Vma.insert_new Vma.insert_at
fourth_returns = refl

history : Reachable page_ops nothing one_reused
unfolding remove_at
history =
    next_step
      (next_step
        (next_step (next_step start (mmaps nothing no_files 5000 3 34 0 0 _ _ low first_returns))
          (mmaps two_pages no_files 4096 3 34 0 0 _ _ (low + 8192) second_returns))
        (munmaps three_pages 1 5000 _ _ (omega arith) refl third_returns))
      (mmaps one_left no_files 4096 3 34 0 0 _ _ low fourth_returns)

mappings_disjoint_example :
    ((i j a : ℕ)
      → i < 2
      → j < 2
      → i ≢ j
      → cover 1 (get_or one_reused.live i no_range) a
          + cover 1 (get_or one_reused.live j no_range) a
        ≤ 1)
    × IsValid low (low + 12288) one_reused.proc.mmap_free one_reused.live
mappings_disjoint_example =
    mappings_disjoint page_ops process [] one_reused (omega arith) (omega arith) refl history

abbrev given_back : Proc
given_back = space 2 (record { base = low; size = 8192 } ∷ []) []

back_returns :
    sys_munmap page_ops low 5000 two_pages.proc two_pages.pages ≡ some (given_back, [], 0)
unfolding sys_munmap unmap_raw has_shared remove_range mmap_free_insert Vma.remove insert_loop
    Vma.with_table append_range Vma.remove_entries shared_at
back_returns = refl

mmap-munmap_example :
    (kind : ℕ) × ((a : ℕ)
      → lookup two_pages.proc.ranges.entries a
        ≡ (if inside low 8192 a then some (3, kind) else lookup [] a))
    × ((a : ℕ) → lookup given_back.ranges.entries a ≡ lookup [] a)
mmap-munmap_example =
    mmap-munmap page_ops no_files 5000 3 34 0 0 low process two_pages.proc given_back []
      two_pages.pages [] first_returns (omega arith) back_returns
      (record { table = 1; has_table = refl; sorted = tt; free = tt; room = omega arith })

process-BrkValid : BrkValid process
process-BrkValid = record { above = omega arith; aligned = omega arith; in_user = omega arith }

sys_brk-Answers_example : Ends (Answers process 6300000) (sys_brk page_ops 6300000 process [])
sys_brk-Answers_example = sys_brk-Answers page_ops 6300000 process process-BrkValid []

abbrev freed_once : Proc
freed_once = space 0 (record { base = low; size = 4096 } ∷ []) []

abbrev freed_twice : Proc
freed_twice =
    space 0 (record { base = low; size = 4096 } ∷ record { base = low; size = 4096 } ∷ []) []

once_returns : sys_munmap page_ops low 4096 process [] ≡ some (freed_once, [], 0)
unfolding sys_munmap unmap_raw remove_range mmap_free_insert Vma.remove insert_loop Vma.with_table
    append_range Vma.remove_entries
once_returns = refl

twice_returns : sys_munmap page_ops low 4096 freed_once [] ≡ some (freed_twice, [], 0)
unfolding sys_munmap unmap_raw remove_range mmap_free_insert Vma.remove insert_loop Vma.with_table
    append_range Vma.remove_entries
twice_returns = refl

munmap_twice_example :
    (q r : Proc) × (place_anywhere 0 4096 freed_twice ≡ (q, placed low))
    × (place_anywhere 0 4096 q ≡ (r, placed low))
munmap_twice_example =
    munmap_twice page_ops low 4096 process freed_once freed_twice [] [] [] refl (omega arith)
      (omega arith) once_returns twice_returns
