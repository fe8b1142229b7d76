-- ===== src/Lib.antt =====
-- Programs of the semicomplete archive, modelled as functions.
--
-- Grok (tags/grok/20090928) matches texts against named patterns and reacts to matches.
--   Grok/Buffer.antt     stringhelper.c: `substr_replace`, the growth of a buffer, `string_ndup`
--   Grok/Escape.antt     stringhelper.c: `string_escape` with its three styles, `string_unescape`
--   Grok/Filters.antt    filters.gperf: the filters of a reaction, over `string_escape`
--   Grok/Predicate.antt  predicates.c: comparison of texts; Grok/Predicate/Numbers.antt has that of
--                        numbers and Grok/Predicate/Choice.antt the choice of grokre.c
--   Grok/Pattern.antt    grok_pattern.c: the table of patterns and the import of a pattern file
--   Grok/Watch.antt      grok_input.c: how a file is followed while it grows or is replaced
--   Grok/Capture.antt    grok_capture.c and grok_match.c: the captures of a pattern, by id and by name
--   Grok/Expand.antt     grokre.c: the expansion of a pattern; Grok/Expand/Rewrites.antt has its meaning
--   Grok/Compile.antt    grokre.c: `grok_compilen` and the numbers of the captures
--   Grok/Exec.antt       grokre.c: `grok_execn`; predicates.c: the predicate of a regular expression, whose
--                        init is in Grok/Compile/Inits.antt
--   Grok/Callout.antt    grok.c: the callout that runs the predicate of a group
--   Grok/Reaction.antt   grok_matchconf.c: the filters of a reaction
--   Grok/Program.antt    grok_program.c, grok_input.c, grok_matchconf.c: the lines and the end of inputs, their
--                        restarts, the shells, and the end of the event loop; its state is Grok/Program/State.antt
--   Grok/Database.antt   what is used of Berkeley DB, a parameter, with an instance
-- The filters call the escapes, which call `substr_replace`; the pattern table calls the
-- database. An expansion looks names up in the pattern table, rewrites a buffer by
-- `substr_replace`, and adds captures; a compilation expands the pattern, and afterwards gives
-- each capture the number of its group.
--
-- Cuecat.antt is the decoder of bar code scans, cuecat/decode.c.
--
-- Choplog.antt cuts a file into pieces, choplog/choplog.c. The file system is a parameter: whether a file
-- can be opened, how many bytes of a block `fwrite` takes for the open one, and what of them is
-- on the disk once it is closed. The count of bytes is an `int` of 32 bits.
--
-- Spanningtree computes minimum spanning trees, spanningtree.
--   Spanningtree/Queue.antt      the priority queue of prim.c, a heap in an array
--   Spanningtree/Bitmap.antt     the bitmap of the vertices that are in the tree
--   Spanningtree/Adjmatrix.antt  `prim_adjmatrix`
--   Spanningtree/Adjlist.antt    `prim_adjlist`
--   Spanningtree/Reach.antt      graph.c: whether a graph is connected
--   Spanningtree/Kruskal.antt    kruskal.c: the list of the edges and its quick sort
--   Spanningtree/Countsort.antt  kruskal.c: the counting sort
--
-- Common has the helpers that these share. Each component's Examples has runs at fixed inputs.
--
-- A byte is a number; a block of memory is a list of bytes. A function that can leave its block
-- returns an `Option`, and `none` is the fault. A buffer's pointer, length and allocated size are
-- one record, given in and returned. What `realloc` adds is indeterminate: a parameter `junk`.
-- The loops over a buffer run on fuel: one more than the length of the text, and each round
-- brings the index nearer to the end. Other loops have one round more than there are bytes of the
-- file (choplog), pairs of vertices (`prim_adjmatrix`), or vertices (`dfs_mark`), and the
-- doubling of a capture's buffer has 14, the last of which aborts. The quick sort has as many
-- levels as its range has indices. The expansion of a pattern can go on without end, so its fuel
-- is an argument: it is enough where it exceeds the rounds of the rewriting, and where no
-- expression names a pattern the length of the text is. The other theorems leave no fuel open. A
-- `long` has 64 bits, and its difference is written out with wrap-around, which the C standard
-- leaves undefined. `strtol`, `strncmp`, `isprint` and `strtok_r` are modelled in the C locale;
-- floating point numbers and `strtod` are parameters.
--
-- Not modelled: logging, allocation failure, what PCRE does inside, and so at which point of a
-- search it makes a callout, the macros of a reaction, the configuration of grok; the forests
-- of kruskal.c; the other programs of the archive.
mod Common
pub mod Grok
pub mod Cuecat
pub mod Choplog
pub mod Spanningtree
