-- ===== src/Bio/Examples.antt =====
-- The theorems of kernel/bio.c at a cache of two buffers, and runs of it.
use avx_loong_arch.Prelude.{◌≤◌, ◌≡◌, refl, true, List, [], ◌∷◌, arith, ok}
use avx_loong_arch.Bio.Lookup.{Got, bget-Got, copies}
use avx_loong_arch.Bio.{Buf, Disk, blank, binit, pinned, recycled, find_cached, find_free, bget}

abbrev cache : List Buf
cache = binit 2

-- The least recent buffer becomes that of sector 5.
abbrev cache_5 : List Buf
cache_5 = blank 1 ∷ recycled 0 5 (blank 0) ∷ []

bget-cache : bget 0 5 cache ≡ ok (0, cache_5)
unfolding bget find_cached find_free binit
bget-cache = refl

bget-cached : bget 0 5 cache_5 ≡ ok (0, blank 1 ∷ pinned (recycled 0 5 (blank 0)) ∷ [])
unfolding bget find_cached find_free
bget-cached = refl

copies-cache : copies 0 5 cache ≤ 1
unfolding binit
copies-cache = omega arith

bget-Got_example : Got 0 5 cache (bget 0 5 cache)
bget-Got_example = bget-Got 0 5 cache

-- Held by process 3, with one user.
abbrev held_buf : Buf
held_buf = record (recycled 0 5 (blank 0)) {
  lock = record { locked = true; pid = 3 };
  content = λ o. o;
}

abbrev zero_disk : Disk
zero_disk = λ dev s o. 0
