-- ===== src/DataIo/Storing.antt =====
-- The pages of a range, written: the range has the new bytes, and the file the others as before.
use paffs.Prelude.{
  ℕ, ◌+◌, ◌-◌, ◌*◌, ◌/◌, ◌%◌, ◌≤◌, ◌<◌, ◌≡◌, sym, ap, subst, ◌∙◌, ◌⊎◌, List, le→ltb, get_or, arith,
}
use native.Mathlib.Nat.{div-add-mod', mod-lt, div-lt_iff_lt-mul}
use paffs.Types.{Config}
use paffs.Calls.{go}
use paffs.PageState.{PageState}
use paffs.DataIo.{IoOps, last_page}
use paffs.DataIo.Write.{Writer, write_page_data}
use paffs.DataIo.Content.{View, file_byte, IoLaws}
use paffs.DataIo.Marks.{SameFile, SameFile-file_byte, IsIdle, IsIdle-IsOld}
use paffs.DataIo.Files.{IsRange, HasPages, range-HasPages}
use paffs.DataIo.Ranges.{CanStore, Stored, write_pages_lem}

mul_mono : (a b size : ℕ) → a ≤ b → a * size ≤ b * size
mul_mono a b size h = grind arith

module _ {W : Type 0} (c : Config) (size max_pages limit : ℕ) (ops : IoOps W)
    (laws : IoLaws c size max_pages limit ops) where
  -- The bytes of the range are the new ones, every other byte of the file is the old one.
  pub record Holds (offs bytes filesize : ℕ) (content : List ℕ) (v v' : View) : Type 0 where
    pub new_bytes : (i : ℕ) → i < bytes → file_byte size v' (offs + i) ≡ get_or content i 0
    pub old_bytes :
        (k : ℕ)
        → k < filesize
        → (k < offs) ⊎ (offs + bytes ≤ k)
        → file_byte size v' k ≡ file_byte size v k

  pub Holds-same :
      (offs bytes filesize : ℕ) (content : List ℕ) (v v1 v2 : View)
      → SameFile v1 v2
      → Holds offs bytes filesize content v v1
      → Holds offs bytes filesize content v v2
  Holds-same offs bytes filesize content v v1 v2 same h = record {
    new_bytes = λ i lt. SameFile-file_byte size v1 v2 (offs + i) same ∙ h.new_bytes i lt;
    old_bytes = λ k lt out. SameFile-file_byte size v1 v2 k same ∙ h.old_bytes k lt out;
  }

  abbrev pages_of : ℕ → ℕ → ℕ
  pages_of offs bytes = last_page c size max_pages ops offs bytes + 1 - offs / size

  abbrev writer_at : W → PageState → ℕ → ℕ → Writer W
  writer_at w m offs reserved = record {
    world = w;
    machine = m;
    done = 0;
    offs = offs % size;
    reserved = reserved;
  }

  pub Stored-Holds :
      (offs bytes filesize reserved : ℕ) (content : List ℕ) (v v' : View) (w : W) (m : PageState)
      (s' : Writer W)
      → IsRange c size max_pages limit ops laws offs bytes (offs + bytes)
      → filesize ≤ limit * size
      → Stored c size max_pages limit ops laws
          (pages_of offs bytes)
          (offs / size)
          bytes
          filesize
          content
          v
          v'
          (writer_at w m offs reserved)
          s'
      → Holds offs bytes filesize content v v'
  unfolding file_byte
  Stored-Holds offs bytes filesize reserved content v v' w m s' range in_limit t =
      let start : offs / size * size + offs % size ≡ offs = div-add-mod' offs size in
      record {
        new_bytes = λ i lt.
            let k : ℕ = offs + i in
            let split : k / size * size + k % size ≡ k = div-add-mod' k size in
            let low : k / size < limit =
              (div-lt_iff_lt-mul range.nonempty).1 (omega (arith, range.inside, range.in_limit)) in
            t.new_bytes (k / size) (k % size) low (mod-lt k range.nonempty)
              (omega (arith, split, start)) (omega (arith, split, start))
            ∙ ap (λ n. get_or content n 0) (omega (arith, split, start));
        old_bytes = λ k lt out.
            let split : k / size * size + k % size ≡ k = div-add-mod' k size in
            let low : k / size < limit =
              (div-lt_iff_lt-mul range.nonempty).1 (omega (arith, in_limit)) in
            t.old_bytes (k / size) (k % size) low (mod-lt k range.nonempty) (omega (arith, split))
              (ground (arith, split, start, out));
      }

  -- The pages of a range can be written in one go.
  pub record CanWrite (offs bytes : ℕ) (v : View) : Type 0 where
    pub range : IsRange c size max_pages limit ops laws offs bytes (offs + bytes)
    pub few_pages : last_page c size max_pages ops offs bytes < offs / size + max_pages
    pub roomy : pages_of offs bytes ≤ v.room
    pub pages_small : limit * size < 4294967296

  pub write_page_data_lem :
      (offs bytes filesize reserved : ℕ) (content : List ℕ) (v : View) (w : W) (m : PageState)
      → CanWrite offs bytes v
      → laws.Shows w v
      → IsIdle c size max_pages limit ops laws m
      → (s' : Writer W) × (v' : View) × (write_page_data c size max_pages ops
            (offs / size)
            (last_page c size max_pages ops offs bytes)
            content
            bytes
            filesize
            (writer_at w m offs reserved)
          ≡ go tt s')
        × Stored c size max_pages limit ops laws
            (pages_of offs bytes)
            (offs / size)
            bytes
            filesize
            content
            v
            v'
            (writer_at w m offs reserved)
            s'
  unfolding write_page_data
  write_page_data_lem offs bytes filesize reserved content v w m h shown idle =
      let p : HasPages c size max_pages limit ops laws offs bytes =
        range-HasPages c size max_pages limit ops laws offs bytes (offs + bytes) h.range in
      let can : CanStore c size max_pages limit ops laws (pages_of offs bytes) (offs / size) bytes v
          (writer_at w m offs reserved) =
        record {
          shown = shown;
          roomy = h.roomy;
          old_is = IsIdle-IsOld c size max_pages limit ops laws m v idle;
          in_list = omega (arith, idle.none_held, h.few_pages);
          in_file = omega (arith, p.ordered, p.in_file);
          nonempty = h.range.nonempty;
          offset = p.offset;
          so_far = omega arith;
          small = omega (arith, h.range.small);
          pages_small = omega (
            arith,
            mul_mono (offs / size + pages_of offs bytes) limit size
                (omega (arith, p.ordered, p.in_file)),
            h.pages_small,
          );
          enough = omega (arith, p.enough);
        } in
      let first : 0 + offs / size ≡ offs / size = omega arith in
      let (s', v', e, t) =
        write_pages_lem c size max_pages limit ops laws (pages_of offs bytes) (offs / size) 0 bytes
          filesize content v (writer_at w m offs reserved)
          (subst
            (λ p.
              CanStore c size max_pages limit ops laws (pages_of offs bytes) p bytes v
                (writer_at w m offs reserved))
            (sym first) can) in
      (
        s',
        v',
        rw
            (
              laws.writable w v shown,
              le→ltb size (offs % size) (omega (arith, p.offset)),
              le→ltb _ _ p.ordered,
              p.rounds,
            )
            e,
        subst
            (λ p.
              Stored c size max_pages limit ops laws (pages_of offs bytes) p bytes filesize content
                v v' (writer_at w m offs reserved) s')
            first t,
      )
