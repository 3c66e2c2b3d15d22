-- ===== src/Elf/Total.antt =====
-- `parse` of kernel/src/elf.rs does not panic, whatever the bytes are: every read is in bounds, and no
-- addition overflows.
use ignium.Base.{
  ℕ, zero, suc, ◌+◌, ◌*◌, ◌≤◌, ◌<◌, ◌≡◌, ◌≢◌, refl, sym, Bool, true, false, not, none, some, List,
  [], ◌∷◌, ok, err, or_err, ◌==◌, ltb, if◌then◌else◌, length, arith, get_elem?-total,
}
use ignium.Base.Checked.{◌>>=◌, refuse, after_bind, avoid_bind, avoid_test, avoid_check}
use ignium.Elf.{
  ElfError, Segment, Fault, panic, elf, parse, read_headers, read_header, load_segment, checked,
  word_limit, le, byte, sort_segments, check_overlap, page_end, same_bytes, check_table, truncated,
}
use ignium.Elf.Sound.{AllFit, read_headers-AllFit, sort_segments-AllFit}

elf≢panic : (e : ElfError) → elf e ≢ panic
elf≢panic e h = cc h

ok≢panic : {A : Type 0} (a : A) → ok a ≢ err panic
ok≢panic a h = cc h

byte-avoids : (bytes : List ℕ) (i : ℕ) → i < length bytes → byte bytes i ≢ err panic
unfolding byte
byte-avoids bytes i h q =
    let (v, e) = get_elem?-total bytes i h in ok≢panic v (ground (arith, e, q))

le-avoids : (bytes : List ℕ) (off n : ℕ) → off + n ≤ length bytes → le bytes off n ≢ err panic
unfolding le
le-avoids bytes off zero h = ok≢panic 0
le-avoids bytes off (suc n) h =
    avoid_bind _ _ panic (byte-avoids bytes off (omega (arith, h))) λ b _.
      avoid_bind _ _ panic (le-avoids bytes (suc off) n (omega (arith, h))) λ rest _. ok≢panic _

same_bytes-avoids :
    (bytes : List ℕ) (off : ℕ) (ms : List ℕ)
    → off + length ms ≤ length bytes
    → same_bytes bytes off ms ≢ err panic
unfolding same_bytes
same_bytes-avoids bytes off [] h = ok≢panic true
same_bytes-avoids bytes off (m ∷ ms) h =
    avoid_bind _ _ panic (byte-avoids bytes off (omega (arith, h))) λ b _.
      avoid_bind _ _ panic (same_bytes-avoids bytes (suc off) ms (omega (arith, h)))
        λ rest _. ok≢panic _

load_segment-avoids :
    (bytes : List ℕ) (off : ℕ) → off + 56 ≤ length bytes → load_segment bytes off ≢ err panic
unfolding load_segment
load_segment-avoids bytes off h =
    avoid_bind _ _ panic (le-avoids bytes (off + 4) 4 (omega (arith, h))) λ flags _.
      avoid_bind _ _ panic (le-avoids bytes (off + 8) 8 (omega (arith, h))) λ p_offset _.
        avoid_bind _ _ panic (le-avoids bytes (off + 16) 8 (omega (arith, h))) λ p_vaddr _.
          avoid_bind _ _ panic (le-avoids bytes (off + 32) 8 (omega (arith, h))) λ p_filesz _.
            avoid_bind _ _ panic (le-avoids bytes (off + 40) 8 (omega (arith, h))) λ p_memsz _.
              avoid_test _ _ panic _ (elf≢panic _) λ _. avoid_test _ _ panic _ (elf≢panic _) λ _.
                avoid_test _ _ panic _ (elf≢panic _) λ _.
                  avoid_test _ _ panic _ (elf≢panic _)
                    λ _. avoid_test _ _ panic _ (elf≢panic _) λ _. ok≢panic _

read_header-avoids :
    (bytes : List ℕ) (off : ℕ) → off + 56 ≤ length bytes → read_header bytes off ≢ err panic
unfolding read_header
read_header-avoids bytes off h =
    avoid_bind _ _ panic (le-avoids bytes off 4 (omega (arith, h)))
      λ p_type _. picked (not (p_type == 1))
  where
    picked :
        (b : Bool)
        → (if b then ok none else (load_segment bytes off >>= λ s. ok (some s))) ≢ err panic
    picked true = ok≢panic none
    picked false = avoid_bind _ _ panic (load_segment-avoids bytes off h) λ s _. ok≢panic (some s)

checked-avoids : (n : ℕ) → n < word_limit → or_err (checked n) panic ≢ err panic
unfolding checked
checked-avoids n h q = ok≢panic n (ground (arith, h, q))

checked-value : (n v : ℕ) (f : Fault) → or_err (checked n) f ≡ ok v → v ≡ n
unfolding checked
checked-value n v f h = ground (arith, h)

checked-below : (n v : ℕ) (f : Fault) → or_err (checked n) f ≡ ok v → n < word_limit
unfolding checked
checked-below n v f h = ground (arith, h)

read_headers-avoids :
    (bytes : List ℕ) (phoff i n : ℕ)
    → phoff + (i + n) * 56 ≤ length bytes
    → phoff + (i + n) * 56 < word_limit
    → read_headers bytes phoff i n ≢ err panic
unfolding read_headers
read_headers-avoids bytes phoff i zero h g = ok≢panic []
read_headers-avoids bytes phoff i (suc n) h g =
    avoid_bind _ _ panic (checked-avoids (phoff + i * 56) (omega (arith, g))) λ off e.
      let at : off ≡ phoff + i * 56 = checked-value _ off _ e in
      avoid_bind _ _ panic (read_header-avoids bytes off (omega (arith, h, at))) λ s _.
        avoid_bind _ _ panic
          (read_headers-avoids bytes phoff (suc i) n (omega (arith, h)) (omega (arith, g)))
          λ rest _. ok≢panic _

check_overlap-avoids : (n : ℕ) (ss : List Segment) → AllFit n ss → check_overlap ss ≢ err panic
unfolding check_overlap page_end
check_overlap-avoids n [] h = ok≢panic tt
check_overlap-avoids n (a ∷ []) h = ok≢panic tt
check_overlap-avoids n (a ∷ b ∷ rest) h =
    let fits = h.0.in_user in
    avoid_bind _ _ panic
      (avoid_bind _ _ panic (checked-avoids (a.vaddr + a.memsz) (omega (arith, fits))) λ end e.
        let at : end ≡ a.vaddr + a.memsz = checked-value _ end _ e in
        avoid_bind _ _ panic (checked-avoids (end + 4096) (omega (arith, fits, at)))
          λ top _. ok≢panic _)
      λ a_end _. avoid_test _ _ panic _ (elf≢panic _) λ _. check_overlap-avoids n (b ∷ rest) h.1

checked_elf-avoids : (n : ℕ) (e : ElfError) → or_err (checked n) (elf e) ≢ err panic
unfolding checked
checked_elf-avoids n e q = elf≢panic e (ground (arith, q))

refuse-avoids : (b : Bool) (e : ElfError) → refuse b (elf e) ≢ err panic
unfolding refuse
refuse-avoids true e q = elf≢panic e (cc q)
refuse-avoids false e q = ok≢panic tt q

true≢false : true ≢ false
true≢false h = cc h

refuse-ok : (b : Bool) (f : Fault) → refuse b f ≡ ok tt → b ≡ false
unfolding refuse
refuse-ok true f h = cc h
refuse-ok false f h = refl

check_table-avoids : (bytes : List ℕ) (phoff phnum : ℕ) → check_table bytes phoff phnum ≢ err panic
unfolding check_table
check_table-avoids bytes phoff phnum = picked (ltb 0 phnum)
  where
    picked :
        (b : Bool)
        → (if b
            then (or_err (checked (phnum * 56)) (elf truncated) >>= λ ph_bytes.
                or_err (checked (phoff + ph_bytes)) (elf truncated) >>= λ end.
                refuse (ltb (length bytes) end) (elf truncated))
            else refuse (ltb (length bytes) phoff) (elf truncated))
          ≢ err panic
    picked true =
        avoid_bind _ _ panic (checked_elf-avoids _ _)
          λ _ _. avoid_bind _ _ panic (checked_elf-avoids _ _) λ _ _. refuse-avoids _ _
    picked false = refuse-avoids _ _

-- A table that passes its check lies in the file, and its end is a machine word.
table_in_file :
    (bytes : List ℕ) (phoff phnum : ℕ)
    → 0 < phnum
    → check_table bytes phoff phnum ≡ ok tt
    → (phoff + phnum * 56 ≤ length bytes) × (phoff + phnum * 56 < word_limit)
unfolding check_table refuse
table_in_file bytes phoff phnum some_headers h =
    picked (ltb 0 phnum) (ground (arith, some_headers)) h
  where
    picked :
        (b : Bool)
        → b ≡ true
        → (if b
            then (or_err (checked (phnum * 56)) (elf truncated) >>= λ ph_bytes.
                or_err (checked (phoff + ph_bytes)) (elf truncated) >>= λ end.
                refuse (ltb (length bytes) end) (elf truncated))
            else refuse (ltb (length bytes) phoff) (elf truncated))
          ≡ ok tt
        → (phoff + phnum * 56 ≤ length bytes) × (phoff + phnum * 56 < word_limit)
    picked false f h = elim (true≢false (sym f)) [ ]
    picked true f h = after_bind _ _ h λ ph_bytes e h. after_bind _ _ h λ end g h.
        let size : ph_bytes ≡ phnum * 56 = checked-value _ ph_bytes _ e in
        let stop : end ≡ phoff + ph_bytes = checked-value _ end _ g in
        let small : phoff + ph_bytes < word_limit = checked-below _ end _ g in
        let inside : ltb (length bytes) end ≡ false = refuse-ok _ _ h in
        (ground (arith, size, stop, inside), ground (arith, size, small))

headers-avoids :
    (bytes : List ℕ) (phoff phnum : ℕ)
    → check_table bytes phoff phnum ≡ ok tt
    → read_headers bytes phoff 0 phnum ≢ err panic
unfolding read_headers
headers-avoids bytes phoff zero h = ok≢panic []
headers-avoids bytes phoff (suc n) h =
    let (inside, below) = table_in_file bytes phoff (suc n) (omega arith) h in
    read_headers-avoids bytes phoff 0 (suc n) (omega (arith, inside)) (omega (arith, below))

-- The ELF parser never panics: for any bytes it returns a result or an error of its own.
pub parse_total : (bytes : List ℕ) → parse bytes ≢ err panic
unfolding parse
parse_total bytes = avoid_test _ _ panic _ (elf≢panic _) λ long.
    let size : 64 ≤ length bytes = ground (arith, long) in
    avoid_bind _ _ panic
      (same_bytes-avoids bytes 0 (0x7f ∷ 0x45 ∷ 0x4c ∷ 0x46 ∷ []) (omega (arith, size)))
      λ magic _. avoid_test _ _ panic _ (elf≢panic _) λ _.
        avoid_bind _ _ panic (byte-avoids bytes 4 (omega (arith, size))) λ class _.
          avoid_test _ _ panic _ (elf≢panic _) λ _.
            avoid_bind _ _ panic (le-avoids bytes 16 2 (omega (arith, size))) λ etype _.
              avoid_test _ _ panic _ (elf≢panic _) λ _.
                avoid_bind _ _ panic (le-avoids bytes 18 2 (omega (arith, size))) λ machine _.
                  avoid_test _ _ panic _ (elf≢panic _) λ _.
                    avoid_bind _ _ panic (le-avoids bytes 24 8 (omega (arith, size))) λ entry _.
                      avoid_bind _ _ panic (le-avoids bytes 32 8 (omega (arith, size))) λ phoff _.
                        avoid_bind _ _ panic (le-avoids bytes 56 2 (omega (arith, size))) λ phnum _.
                          avoid_check _ _ panic (check_table-avoids bytes phoff phnum) λ table.
                            avoid_bind _ _ panic (headers-avoids bytes phoff phnum table) λ ss e.
                              avoid_check _ _ panic
                                (check_overlap-avoids (length bytes) (sort_segments ss) (
                                  sort_segments-AllFit (length bytes) ss
                                    (read_headers-AllFit bytes phoff 0 phnum ss e)))
                                λ _. ok≢panic _
