-- ===== src/Elf/Sound.antt =====
-- What `parse` of kernel/src/elf.rs has checked when it accepts a file.
use ignium.Base.{
  ℕ, zero, suc, ◌+◌, ◌%◌, ◌≤◌, ◌≡◌, ◌≢◌, refl, ap, ◌∙◌, subst, Bool, true, false, not, Option, none,
  some, List, [], ◌∷◌, Result, ok, err, ◌==◌, leb, if◌then◌else◌, length, arith, Bool-cases, inl,
  inr,
}
use ignium.Base.Checked.{◌>>=◌, after_bind, after_test, after_check}
use ignium.Abi.{user_va_limit}
use ignium.Elf.{
  Segment, ElfInfo, Fault, parse, read_headers, read_header, load_segment, exceeds, checked,
  align_down, align_up, sort_segments, insert_segment, check_overlap, page_end, push_segment,
}

none≢some : {s : Segment} → none ≢ some s
none≢some h = cc h

abbrev segments_of : Result ElfInfo Fault → List Segment
segments_of (ok i) = i.segments
segments_of (err e) = []

-- A segment lies in the user's half of the address space and, as far as it is stored, in a file of
-- `n` bytes, and it stands at the same place in a page in both.
pub record Fits (n : ℕ) (s : Segment) : Type 0 where
  pub in_user : s.vaddr + s.memsz ≤ user_va_limit
  pub covers : s.filesz ≤ s.memsz
  pub in_file : s.offset + s.filesz ≤ n
  pub congruent : s.vaddr % 4096 ≡ s.offset % 4096

abbrev pub AllFit : ℕ → List Segment → Type 0
AllFit n [] = Unit
AllFit n (s ∷ ss) = Fits n s × AllFit n ss

-- The pages of a segment end before the pages of each of the others begin.
abbrev pub Before : Segment → List Segment → Type 0
Before a [] = Unit
Before a (b ∷ bs) = (align_up (a.vaddr + a.memsz) ≤ align_down b.vaddr) × Before a bs

-- The page ranges of the segments follow one another: no page belongs to two of them.
abbrev pub Apart : List Segment → Type 0
Apart [] = Unit
Apart (a ∷ rest) = Before a rest × Apart rest

exceeds-ok : (a b limit : ℕ) → exceeds a b limit ≡ false → a + b ≤ limit
unfolding exceeds checked
exceeds-ok a b limit h = ground (arith, h)

load_segment-Fits :
    (bytes : List ℕ) (off : ℕ) (s : Segment) → load_segment bytes off ≡ ok s → Fits (length bytes) s
unfolding load_segment
load_segment-Fits bytes off s h = after_bind _ _ h λ flags _ h. after_bind _ _ h λ p_offset _ h.
    after_bind _ _ h λ p_vaddr _ h. after_bind _ _ h λ p_filesz _ h. after_bind _ _ h λ p_memsz _ h.
      after_test _ _ _ h λ _ h. after_test _ _ _ h λ high h. after_test _ _ _ h λ bss h.
        after_test _ _ _ h λ file h. after_test _ _ _ h λ same h. record {
          in_user = ground (arith, h, exceeds-ok p_vaddr p_memsz user_va_limit high);
          covers = ground (arith, h, bss);
          in_file = ground (arith, h, exceeds-ok p_offset p_filesz (length bytes) file);
          congruent = ground (arith, h, same);
        }

AllFit-push :
    (n : ℕ) (o : Option Segment) (ss : List Segment)
    → ((s : Segment) → o ≡ some s → Fits n s)
    → AllFit n ss
    → AllFit n (push_segment o ss)
AllFit-push n none ss f h = h
AllFit-push n (some s) ss f h = (f s refl, h)

read_header-Fits :
    (bytes : List ℕ) (off : ℕ) (o : Option Segment) (s : Segment)
    → read_header bytes off ≡ ok o
    → o ≡ some s
    → Fits (length bytes) s
unfolding read_header
read_header-Fits bytes off o s h g = after_bind _ _ h λ p_type _ h. picked (not (p_type == 1)) h
  where
    picked :
        (b : Bool)
        → (if b then ok none else (load_segment bytes off >>= λ s. ok (some s))) ≡ ok o
        → Fits (length bytes) s
    picked true h = let e : none ≡ o = ground (arith, h) in elim (none≢some (e ∙ g)) [ ]
    picked false h = after_bind _ _ h λ x e h.
        let same : x ≡ s = ground (arith, h, g) in
        subst (λ z. Fits (length bytes) z) same (load_segment-Fits bytes off x e)

pub read_headers-AllFit :
    (bytes : List ℕ) (phoff i n : ℕ) (ss : List Segment)
    → read_headers bytes phoff i n ≡ ok ss
    → AllFit (length bytes) ss
unfolding read_headers
read_headers-AllFit bytes phoff i zero ss h =
    let e : [] ≡ ss = ground (arith, h) in subst (λ l. AllFit (length bytes) l) e tt
read_headers-AllFit bytes phoff i (suc n) ss h = after_bind _ _ h λ off _ h.
    after_bind _ _ h λ o f h. after_bind _ _ h λ rest g h.
      let e : push_segment o rest ≡ ss = ground (arith, h) in
      subst (λ l. AllFit (length bytes) l) e
        (AllFit-push (length bytes) o rest (λ s e. read_header-Fits bytes off o s f e)
          (read_headers-AllFit bytes phoff (suc i) n rest g))

insert_segment-AllFit :
    (n : ℕ) (s : Segment) (ss : List Segment)
    → Fits n s
    → AllFit n ss
    → AllFit n (insert_segment s ss)
unfolding insert_segment
insert_segment-AllFit n s [] f h = (f, tt)
insert_segment-AllFit n s (x ∷ xs) f h = elim (Bool-cases (leb s.vaddr x.vaddr)) [
  | inl b ↦ rw (b, insert_segment) (f, h)
  | inr b ↦ rw (b, insert_segment) (h.0, insert_segment-AllFit n s xs f h.1)
]

pub sort_segments-AllFit : (n : ℕ) (ss : List Segment) → AllFit n ss → AllFit n (sort_segments ss)
unfolding sort_segments
sort_segments-AllFit n [] h = tt
sort_segments-AllFit n (s ∷ ss) h =
    insert_segment-AllFit n s (sort_segments ss) h.0 (sort_segments-AllFit n ss h.1)

-- Adjacent segments that pass the check leave the pages of all of them apart.
page_end-ok : (a : Segment) (end : ℕ) → page_end a ≡ ok end → end ≡ align_up (a.vaddr + a.memsz)
unfolding page_end checked
page_end-ok a end h = after_bind _ _ h λ x e h. after_bind _ _ h λ y _ h. ground (arith, e, h)

Before-far :
    (a b : Segment) (bs : List Segment)
    → align_up (a.vaddr + a.memsz) ≤ align_down b.vaddr
    → Before b bs
    → Before a bs
Before-far a b [] h t = tt
Before-far a b (c ∷ cs) h t = (omega (arith, h, t.0), Before-far a b cs h t.1)

check_overlap-Apart : (ss : List Segment) → check_overlap ss ≡ ok tt → Apart ss
unfolding check_overlap
check_overlap-Apart [] h = tt
check_overlap-Apart (a ∷ []) h = (tt, tt)
check_overlap-Apart (a ∷ b ∷ rest) h = after_bind _ _ h λ a_end e h. after_test _ _ _ h λ far h.
    let apart = check_overlap-Apart (b ∷ rest) h in
    let top : align_up (a.vaddr + a.memsz) ≤ align_down b.vaddr =
      ground (arith, far, page_end-ok a a_end e) in
    ((top, Before-far a b rest top apart.0), apart)

-- A file that the ELF parser accepts has only segments that fit in the user half of the address
-- space and in the file, each at the same place in a page in both, and no page belongs to two
-- of them.
pub parse_sound :
    (bytes : List ℕ) (info : ElfInfo)
    → parse bytes ≡ ok info
    → AllFit (length bytes) info.segments × Apart info.segments
unfolding parse
parse_sound bytes info h = after_test _ _ _ h λ _ h. after_bind _ _ h λ magic _ h.
    after_test _ _ _ h λ _ h. after_bind _ _ h λ class _ h. after_test _ _ _ h λ _ h.
      after_bind _ _ h λ etype _ h. after_test _ _ _ h λ _ h. after_bind _ _ h λ machine _ h.
        after_test _ _ _ h λ _ h. after_bind _ _ h λ entry _ h. after_bind _ _ h λ phoff _ h.
          after_bind _ _ h λ phnum _ h. after_check _ _ h λ _ h. after_bind _ _ h λ ss e h.
            after_check _ _ h λ apart h.
              let same : sort_segments ss ≡ info.segments = ap segments_of h in
              subst (λ l. AllFit (length bytes) l × Apart l) same
                (
                  sort_segments-AllFit (length bytes) ss
                      (read_headers-AllFit bytes phoff 0 phnum ss e),
                  check_overlap-Apart (sort_segments ss) apart,
                )
