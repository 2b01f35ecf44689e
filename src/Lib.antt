-- ===== src/Lib.antt =====
-- A model of the core of bogofilter, a Bayesian filter of mail, and of what makes it correct.
--
-- A reader takes mails from a mailbox, line by line, into buffers. The MIME stack says which part
-- of the message a line belongs to; the words of a part are collected in a table, with the number
-- of messages that have them. Registration adds the counts of a table to the word list of spam or
-- of ham in a database, or takes them out. Scoring looks the words of a message up in all word
-- lists.
--
-- - Prelude: shared names; Prelude.Tests has the Boolean tests, Prelude.Lists the lists measured by
--   natural numbers.
-- - Word: bogofilter/src/word.c. A word is the list of its bytes.
-- - ListSort: bogofilter/src/listsort.c. A pointer into a list is the list that starts there. The
--   outer loop has as many passes of fuel as the list has elements, which is always enough.
-- - WordHash: bogofilter/src/wordhash.c. A pointer to a node is the number of nodes that are older;
--   the array of bins is a function, and the links of the two kinds of lists are lists of nodes.
--   Bins has the search, View the table as a map, Insert and Iterate the insertion and the loop
--   over the nodes, Counts the operations of the whole table.
-- - Datastore: bogofilter/src/datastore.c and swap_32bit.c. The database library behind it is the
--   record Backend of its calls. RoundTrip asks of it that it gives back what it was given, Healthy
--   that its calls succeed.
-- - WordLists: bogofilter/src/wordlists_base.c, and the configuration and begin_wordlist of
--   bogofilter/src/wordlists.c. The int of a precedence is its distance from INT_MIN. The loop of
--   begin_wordlist has no bound in the source: on fuel it ends with `spins`.
-- - Register: bogofilter/src/register.c. A jump to `retry` is a result, and there are sixty passes
--   at most, as in the source. Tally has the counts as a run should leave them, Update and Words
--   the passes.
-- - Score: bogofilter/src/score.c, lookup, lookup_words and find_scoring_boundary, outside of
--   bogotune. The deviations of scores are an ordered type. The jumps to `retry` have no bound in
--   the source: on fuel they end with `spins`; one pass is enough when no database call is aborted.
-- - Mime: bogofilter/src/mime.c. The stack is the list of parts from msg_state outwards; a null
--   pointer that is followed is the result `none`. Stack has the boundary lines, Header the header
--   fields, Boundary and Reaches what they give together.
-- - Decode: bogofilter/src/qp.c, uudecode.c and base64.c, and mime_decode. The decoders work in
--   place and never write past the place where they read, so a decoder is a function of the text.
--   The loop of base64_decode has as much fuel as the text has bytes. Quoted and Encoded have
--   encoders, Bounds the lengths.
-- - Buff: bogofilter/src/buff.c and fgetsl.c. A buffer has a block of memory, so that what is
--   written behind the contents can be seen. Fgets is about the loop, Contents has the read of a
--   line, Edit the changes of a buffer.
-- - Reader: bogofilter/src/bogoreader.c, the readers of lines. Pieces has the pieces that a stream
--   is read in, Mbox and Mails the lines of one mail, Split the reference for a whole mailbox, Loop
--   the loop over the mails. The loop has as much fuel as the stream has bytes and two more, which
--   is enough since every call but the last of a mail takes a byte.
-- - Token: bogofilter/src/token.c. The generated lexer is an argument. Switch has the classes of
--   tokens, Parse the loops around it, Multi the tokens of several words, Bounds prefixes and tags.
--   Each token of the lexer takes fuel; whether there is enough depends on the lexer.
-- - Input: bogofilter/src/lexer.c, skip_folded_line. Folded has its end: each pass takes a byte.
-- - Collect: bogofilter/src/collect.c, from the tokens to the table of words, on fuel for the
--   tokens. Words has what the table holds then.
-- - Transaction: bogofilter/src/transaction.c, a queue of writes and deletions in front of the
--   datastore. Cells has what an item says of its word, Commit compares the queue with the
--   database.
-- - Maint: bogofilter/src/maint.c, from one token to the transaction. Discard has the choice of
--   tokens, Hook the changes of the database.
-- - TextBlock: bogofilter/src/textblock.c, the lines of a message that are kept. Memory has their
--   account.
-- - Passthrough: bogofilter/src/passthrough.c, the writing of a message with its new header. Lines
--   has the reference, Skip passes over fields, Line writes one line, Follows is about what stands
--   behind the header, Header and Loop have the loop, Message the whole. The loops over the header
--   have as much fuel as there are lines and one more, which is enough since each pass takes a
--   line.
-- - BogoUtil: bogofilter/src/bogoutil.c, the dump of a word list and its load. Numbers and Line
--   read back what was printed, Sum has what a load adds up, Load the whole. The loop over the
--   lines has as much fuel as the text has bytes and one more; each pass takes a byte.
-- - Format: bogofilter/src/format.c, the machine that expands a format. Total has its end, Steps
--   its iterations, Expansion what the directives should show, Shown, Directives and Plain what the
--   machine writes. It stops where the int of a width or a precision overflows. It has four times
--   as much fuel as the format has bytes and four more, which is enough since at most three states
--   in a row leave a byte where it is.
-- - Tests: concrete inputs.
--
-- Unsigned numbers of 32 bits wrap around at 2 ^ 32. Messages on stderr, the debugging output and
-- the waits between two attempts are left out, and so are allocation and its failures. Not
-- modelled: the generated lexer and most of its input, which stand between the reader and the
-- tokens; directories of mails; character sets; the floating-point scores; the arenas of the table,
-- its conversions to arrays and its sort by words; the opening and closing of word lists; the
-- database libraries; and the programs' options, files and reports.
pub mod Prelude
pub mod Word
pub mod ListSort
pub mod WordHash
pub mod Datastore
pub mod WordLists
pub mod Register
pub mod Score
pub mod Mime
pub mod Decode
pub mod Tests
pub mod Buff
pub mod Reader
pub mod Token
pub mod Transaction
pub mod Maint
pub mod Collect
pub mod Input
pub mod TextBlock
pub mod Passthrough
pub mod BogoUtil
pub mod Format
