-- ===== src/Theater/Parser.antt =====
-- parse_children() of tools/theater-build/build.py. The calls that are in progress are explicit: a
-- frame is the key of the block that is being read and the `out` of the call that reads it, so
-- `closing` is "some call is in progress", and no call nests deeper than the model follows.
use tug.Base.{List, [], ◌∷◌}
use tug.Base.Text.{Text}
use tug.Base.Result.{Result, ok, raised}
use tug.Theater.KeyValues.{
  Children, leaf, block, nil, snoc, Error, end_inside_block, unmatched, no_name, no_value,
  closed_after_key,
}
use tug.Theater.Lexer.{Stream, done, fails, open_brace, close_brace, str}

pub record Frame : Type 0 where
  pub key : Text
  pub out : Children

unfoldable pub parse_children : Text → List Frame → Children → Stream → Result Error Children
parse_children path frames out (fails e) = raised e
parse_children path [] out done = ok out
parse_children path (f ∷ fs) out done = raised (end_inside_block path)
parse_children path [] out (close_brace l toks) = raised (unmatched path l)
parse_children path (f ∷ fs) out (close_brace l toks) =
    parse_children path fs (snoc f.out (block f.key out)) toks
parse_children path frames out (open_brace l toks) = raised (no_name path l)
parse_children path frames out (str k l done) = raised (no_value path l k)
parse_children path frames out (str k l (fails e)) = raised e
parse_children path frames out (str k l (open_brace m toks)) =
    parse_children path (record { key = k; out = out } ∷ frames) nil toks
parse_children path frames out (str k l (str v m toks)) =
    parse_children path frames (snoc out (leaf k v)) toks
parse_children path frames out (str k l (close_brace m toks)) = raised (closed_after_key path l k)
