-- ===== src/Fat/Ecache.antt =====
-- kernel/fat32.c: the cache of directory entries. An entry is its index, root is 0; the list through
-- `next` from root on is a list of indices. Each call is one step: no other call comes between the
-- parts of eput that ecache.lock does not cover.
pub mod Children
pub mod Order
pub mod Counts
pub mod Put
pub mod Recycle
pub mod Get
pub mod Attach
mod Examples
use avx_loong_arch.Prelude.{
  ℕ, zero, suc, ◌+◌, ◌-◌, Bool, true, false, ◌&&◌, not, Option, none, some, List, [], ◌∷◌, ◌==◌,
  if◌then◌else◌, Outcome, ok, panic, out_of_fuel, ◌>>=◌,
}
use avx_loong_arch.Fat.Path.{fat32_max_filename}

-- valid: 0, 1 and -1.
pub data Validity : Type 0 where
  blank cached gone : Validity

abbrev pub is_cached : Validity → Bool
is_cached cached = true
is_cached _ = false

abbrev pub is_gone : Validity → Bool
is_gone gone = true
is_gone _ = false

abbrev pub is_blank : Validity → Bool
is_blank blank = true
is_blank _ = false

pub record Entry : Type 0 where
  pub ref : ℕ
  pub valid : Validity
  pub parent : ℕ
  pub filename : List ℕ
  pub dev : ℕ
  pub off : ℕ
  pub dirty : Bool

abbrev pub Entries : Type 0
Entries = ℕ → Entry

pub record Ecache : Type 0 where
  pub entries : Entries
  pub order : List ℕ

abbrev pub set_entry : Entries → ℕ → Entry → Entries
set_entry t k e j = if k == j then e else t j

abbrev pub add_ref : Entries → ℕ → Entries
add_ref t k = set_entry t k (record (t k) { ref = (t k).ref + 1 })

-- `strncmp(a, b, n) == 0`
pub same_name : ℕ → List ℕ → List ℕ → Bool
same_name zero a b = true
same_name (suc n) [] [] = true
same_name (suc n) [] (y ∷ b) = false
same_name (suc n) (x ∷ a) [] = false
same_name (suc n) (x ∷ a) (y ∷ b) = (x == y) && same_name n a b

abbrev pub is_named : Entry → ℕ → List ℕ → Bool
is_named e parent name =
    is_cached e.valid && (e.parent == parent) && same_name fat32_max_filename e.filename name

-- The first loop of eget.
pub find_name : Entries → ℕ → List ℕ → List ℕ → Option ℕ
find_name t parent name [] = none
find_name t parent name (k ∷ ks) =
    let rest = find_name t parent name ks in if is_named (t k) parent name then some k else rest

abbrev pub or_else : Option ℕ → Option ℕ → Option ℕ
or_else none o = o
or_else (some k) o = some k

-- The second loop, from the end of the list.
pub find_unused : Entries → List ℕ → Option ℕ
find_unused t [] = none
find_unused t (k ∷ ks) = or_else (find_unused t ks) (if (t k).ref == 0 then some k else none)

-- `if (ep->ref++ == 0) ep->parent->ref++;`
abbrev pub take_again : Entries → ℕ → Entries
take_again t k =
    if (t k).ref == 0 then add_ref (add_ref t k) (add_ref t k k).parent else add_ref t k

abbrev pub recycle : Entries → ℕ → ℕ → Entries
recycle t parent k =
    set_entry t k
      (record (t k) { ref = 1; dev = (t parent).dev; off = 0; valid = blank; dirty = false })

abbrev pub found_name : Ecache → ℕ → Option ℕ → Option ℕ → Outcome (ℕ × Ecache)
found_name c parent (some k) o = ok (k, record c { entries = take_again c.entries k })
found_name c parent none (some k) = ok (k, record c { entries = recycle c.entries parent k })
found_name c parent none none = panic

-- eget with a name.
pub eget : Ecache → ℕ → List ℕ → Outcome (ℕ × Ecache)
eget c parent name =
    found_name c parent (find_name c.entries parent name c.order) (find_unused c.entries c.order)

pub edup : Ecache → ℕ → Ecache
edup c k = record c { entries = add_ref c.entries k }

-- What dirlookup does with the entry of eget once enext has found the name at `off`.
pub attach : Ecache → (dp k off : ℕ) → Ecache
attach c dp k off =
    let t = (edup c dp).entries in
    record c { entries = set_entry t k (record (t k) { parent = dp; off = off; valid = cached }) }

abbrev pub remove : ℕ → List ℕ → List ℕ
remove k [] = []
remove k (x ∷ xs) = if x == k then xs else x ∷ remove k xs

-- What eput hands on.
pub data Closed : Type 0 where
  truncated : ℕ → Closed
  updated : ℕ → Closed

-- etrunc or eupdate of entry k, and `ref--`.
abbrev pub close_entry : Entry → Entry
close_entry e = record e { ref = e.ref - 1; dirty = if is_gone e.valid then true else false }

abbrev pub last_use : ℕ → Entry → Bool
last_use k e = not (k == 0) && not (is_blank e.valid) && (e.ref == 1)

-- eput; the fuel bounds the directories above the entry. elock of a parent that nobody uses panics.
pub eput : ℕ → Ecache → ℕ → Outcome (List Closed × Ecache)
eput zero c k = out_of_fuel
eput (suc fuel) c k =
    let e = c.entries k in
    let c' : Ecache = record {
      entries = set_entry c.entries k (close_entry e);
      order = k ∷ remove k c.order;
    } in
    let rest = eput fuel c' e.parent >>= λ (closed, c'').
    ok ((if is_gone e.valid then truncated k else updated k) ∷ closed, c'') in
    if last_use k e
    then (if not (is_gone e.valid) && ((c.entries e.parent).ref == 0) then panic else rest)
    else ok ([], record c { entries = set_entry c.entries k (record e { ref = e.ref - 1 }) })
