-- ===== src/Tests/Input.antt =====
-- Buffers, and a mailbox with two mails.
use bogofilter.Input.Folded.{skip_folded_line-ends}
use bogofilter.Input.{ends_field, skip_folded_line}
use bogofilter.Prelude.{
  Bytes, Option, arith, codes, concat, false, length, length-replicate, none, refl, replicate, some,
  true, ℕ, ◌+◌, ◌<◌, ◌≡◌, ◌⊎◌,
}
use bogofilter.Buff.{Buff, Stream, buff_fgetsln, buff_add, buff_shift}
use bogofilter.Buff.Contents.{contents, IsSound, Reads, buff_fgetsln-Reads}
use bogofilter.Buff.Edit.{buff_add-contents, buff_shift-contents}
use bogofilter.Reader.{Reader, simple_getline}
use bogofilter.Reader.Pieces.{pieces}
use bogofilter.Reader.Loop.{Finishes, read_mails-split}
use bogofilter.Reader.Split.{split, RestBegin}

abbrev nuls : ℕ → Bytes
nuls n = replicate n 0

abbrev stream : Bytes → Stream
stream s = record { rest = s; at_end = false }

abbrev buffer : Buff
buffer = record { text = codes "abcdef\0\0\0"; leng = 6; read = 0; size = 8 }

buffer-IsSound : IsSound buffer
buffer-IsSound = (omega arith, omega arith)

buff_fgetsln-Reads_example :
    Reads buffer (stream (codes "xy")) 2 (buff_fgetsln buffer (stream (codes "xy")) 5)
buff_fgetsln-Reads_example =
    buff_fgetsln-Reads buffer (stream (codes "xy")) 5 buffer-IsSound (λ e. absurd cc)

buff_add-contents_example :
    ((buff_add nuls buffer (codes "ghi")).0 ≡ 3)
    × (contents (buff_add nuls buffer (codes "ghi")).1 ≡ codes "abcdefghi")
    × IsSound (buff_add nuls buffer (codes "ghi")).1
buff_add-contents_example =
    buff_add-contents nuls buffer (codes "ghi") (λ n. length-replicate n 0) buffer-IsSound
      (omega arith)

buff_shift-contents_example :
    (6 < 1 + 2) × (buff_shift (codes "zz") buffer 1 2 ≡ none)
    ⊎ ((b' : Buff) × (beyond' : Bytes) × (buff_shift (codes "zz") buffer 1 2 ≡ some (b', beyond'))
        × (contents b' ≡ codes "adef")
        × IsSound b'
        × (length beyond' ≡ 2))
buff_shift-contents_example = buff_shift-contents (codes "zz") buffer 1 2 buffer-IsSound

abbrev two_mails : Bytes
two_mails = codes "From a\nx\n\nFrom b\nFrom\n"

abbrev at_mbox : Reader
at_mbox = record {
  fpin = stream two_mails;
  mail_first = true;
  firstline = true;
  have_message = false;
  separator = codes "From ";
  emptyline = false;
  mailbox_saved = none;
  rmail_saved = none;
  bytesleft = 0;
  ant_saved = none;
  dot_found = true;
}

read_mails-split_example :
    Finishes nuls
      (nuls 9)
      8
      30
      30
      at_mbox
      (split (codes "From ") true false (pieces 22 8 two_mails))
    × (concat (concat (split (codes "From ") true false (pieces 22 8 two_mails))) ≡ two_mails)
    × RestBegin (codes "From ") (split (codes "From ") true false (pieces 22 8 two_mails))
read_mails-split_example =
    read_mails-split nuls (nuls 9) 8 30 at_mbox (λ n. length-replicate n 0) (omega arith)
      (omega arith) (omega arith) refl refl (λ e. absurd cc) (omega arith)

skip_folded_line-ends_example :
    (count : Option ℕ) × (b' : Buff) × (r' : Reader) × (skip_folded_line simple_getline 24 buffer
        at_mbox
      ≡ some (count, b', r'))
    × (ends_field count b' ≡ true)
    × IsSound b'
skip_folded_line-ends_example =
    skip_folded_line-ends 24 buffer at_mbox (omega arith) buffer-IsSound (omega arith)
      (λ e. absurd cc)
