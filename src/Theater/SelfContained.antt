-- ===== src/Theater/SelfContained.antt =====
-- The built theaters need no other file: loading one gives back the tree that was written.
use tug.Base.{ℕ, suc, List, [], ◌∷◌, some, ◌≡◌, false, refl}
use tug.Base.Text.{Text, nl, has_char}
use tug.Base.Result.{ok}
use tug.Theater.KeyValues.{Children, block, nil, cons}
use tug.Theater.Lexer.{tokens}
use tug.Theater.Parser.{parse_children}
use tug.Theater.Loader.{Disk, read_top, resolve_in, resolve, load, add_used}
use tug.Theater.Writer.{render}
use tug.Theater.RoundTrip.{parse-render}

-- One block and nothing beside it is a file with no bases.
read_top-block :
    (path text n : Text) (cs : Children)
    → parse_children path [] nil (tokens text path) ≡ ok (cons (block n cs) nil)
    → read_top path text ≡ ok (block n cs, [])
unfolding read_top
read_top-block path text n cs h = rw h refl

resolve-first :
    (disk : Disk) (d : Text) (dirs : List Text) (name text : Text)
    → disk.read (disk.join d name) ≡ some text
    → resolve disk (d ∷ dirs) name ≡ ok (disk.join d name, text)
unfolding resolve
resolve-first disk d dirs name text held = rw (held, resolve_in) refl

-- If the first directory holds what was rendered for a block, under a file name without a newline,
-- then loading that name takes one step, reads no other file, and gives that block.
pub load-render :
    (disk : Disk) (d : Text) (dirs used : List Text) (fuel : ℕ) (name text n : Text) (cs : Children)
    → has_char nl name ≡ false
    → render name (block n cs) ≡ ok text
    → disk.read (disk.join d name) ≡ some text
    → load disk (d ∷ dirs) (suc fuel) name used ≡ ok (block n cs, add_used (disk.join d name) used)
unfolding load
load-render disk d dirs used fuel name text n cs one_line written held =
    let path = disk.join d name in
    let top =
      read_top-block path text n cs (parse-render path name (block n cs) text one_line written) in
    rw (resolve-first disk d dirs name text held) (rw top refl)
