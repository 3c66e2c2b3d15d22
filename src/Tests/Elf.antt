-- ===== src/Tests/Elf.antt =====
-- A small executable of two segments, listed in descending order of address.
use ignium.Base.{ℕ, ◌≡◌, ◌≢◌, refl, List, [], ◌∷◌, ok, err, length}
use ignium.Elf.Sound.{AllFit, Apart, parse_sound}
use ignium.Elf.Total.{parse_total}
use ignium.Elf.{
  Segment, ElfInfo, panic, parse, checked, byte, le, same_bytes, exceeds, load_segment, read_header,
  read_headers, insert_segment, sort_segments, page_end, check_overlap, check_table,
}
use ignium.Base.Checked.{◌>>=◌, ◌>>◌, refuse}

abbrev image : List ℕ
image =
    127 ∷ 69 ∷ 76 ∷ 70 ∷ 2 ∷ 1 ∷ 1 ∷ 0 ∷ 0 ∷ 0 ∷ 0 ∷ 0 ∷ 0 ∷ 0 ∷ 0 ∷ 0 ∷ 2 ∷ 0 ∷ 243 ∷ 0 ∷ 1 ∷ 0 ∷ 0
    ∷ 0 ∷ 64 ∷ 0 ∷ 1 ∷ 0 ∷ 0 ∷ 0 ∷ 0 ∷ 0 ∷ 64 ∷ 0 ∷ 0 ∷ 0 ∷ 0 ∷ 0 ∷ 0 ∷ 0 ∷ 0 ∷ 0 ∷ 0 ∷ 0 ∷ 0 ∷ 0
    ∷ 0 ∷ 0 ∷ 0 ∷ 0 ∷ 0 ∷ 0 ∷ 64 ∷ 0 ∷ 56 ∷ 0 ∷ 2 ∷ 0 ∷ 0 ∷ 0 ∷ 0 ∷ 0 ∷ 0 ∷ 0 ∷ 1 ∷ 0 ∷ 0 ∷ 0 ∷ 6
    ∷ 0 ∷ 0 ∷ 0 ∷ 16 ∷ 0 ∷ 0 ∷ 0 ∷ 0 ∷ 0 ∷ 0 ∷ 0 ∷ 16 ∷ 0 ∷ 2 ∷ 0 ∷ 0 ∷ 0 ∷ 0 ∷ 0 ∷ 0 ∷ 0 ∷ 0 ∷ 0
    ∷ 0 ∷ 0 ∷ 0 ∷ 0 ∷ 8 ∷ 0 ∷ 0 ∷ 0 ∷ 0 ∷ 0 ∷ 0 ∷ 0 ∷ 0 ∷ 1 ∷ 0 ∷ 0 ∷ 0 ∷ 0 ∷ 0 ∷ 0 ∷ 0 ∷ 16 ∷ 0 ∷ 0
    ∷ 0 ∷ 0 ∷ 0 ∷ 0 ∷ 1 ∷ 0 ∷ 0 ∷ 0 ∷ 5 ∷ 0 ∷ 0 ∷ 0 ∷ 0 ∷ 0 ∷ 0 ∷ 0 ∷ 0 ∷ 0 ∷ 0 ∷ 0 ∷ 0 ∷ 0 ∷ 1 ∷ 0
    ∷ 0 ∷ 0 ∷ 0 ∷ 0 ∷ 0 ∷ 0 ∷ 0 ∷ 0 ∷ 0 ∷ 0 ∷ 0 ∷ 0 ∷ 120 ∷ 0 ∷ 0 ∷ 0 ∷ 0 ∷ 0 ∷ 0 ∷ 0 ∷ 0 ∷ 16 ∷ 0
    ∷ 0 ∷ 0 ∷ 0 ∷ 0 ∷ 0 ∷ 0 ∷ 16 ∷ 0 ∷ 0 ∷ 0 ∷ 0 ∷ 0 ∷ 0 ∷ []

abbrev text : Segment
text = record { vaddr = 0x10000; offset = 0; filesz = 120; memsz = 0x1000; flags = 5 }

abbrev data_segment : Segment
data_segment = record { vaddr = 0x20010; offset = 0x10; filesz = 8; memsz = 0x100; flags = 6 }

abbrev program : ElfInfo
program = record { entry = 0x10040; segments = text ∷ data_segment ∷ [] }

parsed : parse image ≡ ok program
unfolding parse checked byte le same_bytes exceeds load_segment read_header read_headers
    insert_segment sort_segments page_end check_overlap check_table ◌>>=◌ ◌>>◌ refuse
parsed = refl

parse_sound_example : AllFit (length image) program.segments × Apart program.segments
parse_sound_example = parse_sound image program parsed

parse_total_example : parse image ≢ err panic
parse_total_example = parse_total image
