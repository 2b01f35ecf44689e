-- ===== src/Input.antt =====
-- The lines that bogofilter/src/lexer.c passes over. The reader of lines is an argument, as
-- `reader_getline` is a pointer in the source.
pub mod Folded
use bogofilter.Prelude.{
  Bool, Option, get_or, if◌then◌else◌, none, not, some, suc, zero, ℕ, ◌==◌, ◌>>=◌, ◌||◌,
}
use bogofilter.Buff.{Buff}
use bogofilter.Reader.{Reader, GotLine, is_eol}

-- A space or a tab.
abbrev pub is_wsp : ℕ → Bool
is_wsp c = c == b' ' || c == b'\t'

-- The line ends the header's field that is skipped.
unfoldable pub ends_field : Option ℕ → Buff → Bool
unfolding is_eol
ends_field count buff = not (is_wsp (get_or buff.text 0 0)) || is_eol buff.text count

-- The loop goes on with the next line.
unfoldable pub after_folded : GotLine → (Buff → Reader → GotLine) → GotLine
unfolding ends_field
after_folded none next = none
after_folded (some (count, buff, r)) next =
    if ends_field count buff then some (count, buff, r) else next buff r

-- The loop has no bound in the source; no result is too little fuel, or the abort of the line reader.
unfoldable pub skip_folded_line : (Buff → Reader → GotLine) → ℕ → Buff → Reader → GotLine
unfolding after_folded
skip_folded_line reader_getline zero buff r = none
skip_folded_line reader_getline (suc k) buff r =
    after_folded (reader_getline (record buff { leng = 0 }) r)
      (λ buff' r'. skip_folded_line reader_getline k buff' r')
