-- ===== src/Mb2/Tests.antt =====
-- A run of src/mb2.c on boot information with one memory map of two entries.
use god_os.Base.{
  ℕ, ◌≡◌, ◌≤◌, ◌-◌, ◌+◌, ◌%◌, refl, true, false, ltb, leb, if◌then◌else◌, ◌&&◌, some, none, List,
  [], ◌∷◌, length, get_or, arith,
}
use god_os.Mb2.{
  Memory, load, mb2_init, ok, walk_tags, read_tag, read_mmap, take_entries, take_entry, read_entry,
  keep_entry, align_up8, max_tags,
}
use god_os.Mb2.Entries.{Mapped, Ends}
use god_os.Mb2.Safe.{mb2_init-Safe}

abbrev start : ℕ
start = 0x10000

-- 80 bytes: the total size, a tag of type 6 and size 64 with entries of 24 bytes, and the end.
abbrev information : List ℕ
information =
    80 ∷ 0 ∷ 0 ∷ 0 ∷ 0 ∷ 0 ∷ 0 ∷ 0 ∷ 6 ∷ 0 ∷ 0 ∷ 0 ∷ 64 ∷ 0 ∷ 0 ∷ 0 ∷ 24 ∷ 0 ∷ 0 ∷ 0 ∷ 0 ∷ 0 ∷ 0 ∷ 0
    ∷ 0 ∷ 0 ∷ 0 ∷ 0 ∷ 0 ∷ 0 ∷ 0 ∷ 0 ∷ 0 ∷ 252 ∷ 9 ∷ 0 ∷ 0 ∷ 0 ∷ 0 ∷ 0 ∷ 1 ∷ 0 ∷ 0 ∷ 0 ∷ 0 ∷ 0 ∷ 0
    ∷ 0 ∷ 0 ∷ 0 ∷ 16 ∷ 0 ∷ 0 ∷ 0 ∷ 0 ∷ 0 ∷ 0 ∷ 0 ∷ 0 ∷ 2 ∷ 0 ∷ 0 ∷ 0 ∷ 0 ∷ 1 ∷ []

abbrev memory : Memory
memory j =
    if leb start j && ltb j (start + 80)
    then some (get_or information (j - start) 0 % 256)
    else none

memory-Mapped : Mapped memory start (start + 80)
memory-Mapped j lo hi =
    (get_or information (j - start) 0 % 256, inside (ground arith) (ground arith), omega arith)
  where
    inside :
        leb start j ≡ true
        → ltb j (start + 80) ≡ true
        → memory j ≡ some (get_or information (j - start) 0 % 256)
    inside a b = rw (a, b)

parse-memory : mb2_init memory false false 32 start ≡ record {
  status = ok;
  found =
      record { base = 0; length = 0x9FC00 } ∷ record { base = 0x100000; length = 0x2000000 } ∷ [];
  info_end = some (start + 80);
}
unfolding mb2_init max_tags walk_tags read_tag read_mmap take_entries take_entry read_entry
    keep_entry load align_up8
parse-memory = refl

total_size : load 4 memory start ≡ some 80
unfolding load
total_size = refl

mb2_init-Safe_example :
    let r = mb2_init memory false false 32 start in Ends r.status × (length r.found ≤ 32)
mb2_init-Safe_example =
    mb2_init-Safe memory false false 32 start 80 (omega arith) total_size memory-Mapped
