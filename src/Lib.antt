-- ===== src/Lib.antt =====
-- The Python tools of the repository: the build of the theaters, the lock of the workshop items,
-- the migration of the loadouts, the audit of the maps, the packing of VPKs, the images of the map
-- vote, the generator of weapon clones, and the reader of the models of icons.
--
-- Base holds what they share: text as a list of code points (Base/Text), the loops over lists
-- (Base/Lists), sorted() as a stable insertion sort (Base/Sort, Base/SortedList), dicts as
-- association lists in insertion order (Base/Dict, Base/SortedDict, Base/Entries), bytes
-- (Base/Bytes), decimal numbers (Base/Numbers), find() (Base/Split), `in` (Base/Members), and
-- outcomes that are a value, an error or a recursion that does not end (Base/Result).
--
-- Theater is tools/theater-build/build.py. A file goes through tokens() (Theater/Lexer: a lazy
-- stream that ends or raises) and parse_children() (Theater/Parser: the calls in progress are a
-- stack) to a tree of class KV (Theater/KeyValues). Loader.load() (Theater/Loader) reads the #base
-- files over a disk that is a parameter and folds merge() (Theater/Merge) over them. build_all()
-- and main() (Theater/Build) take the orphan attachments out (Theater/Attachments) and write the
-- tree (Theater/Writer). A chain of #base is as long as the fuel of load; fuel above the rank of a
-- file in any ranking of the chain is enough (Theater/Loader/Terminates), and a file in a cycle
-- uses up any fuel, as it does Python's stack. The other modules of Theater hold proofs.
--
-- Workshop is tools/workshop/workshop_lock.py. refresh() (Workshop/Refresh) pins what the servers
-- subscribe to in a lock, whose partition() into buckets is Workshop/Lock. From them follow the
-- stages and layers of the Dockerfile and the .acf files (Workshop/Render,
-- Workshop/Render/Generated), which splice() (Workshop/Splice) puts between markers and render()
-- writes (Workshop/Fetch, with published_file_details()). The first eight digits of the SHA-256 of
-- an id, the answers of the Steam API and the files are parameters; no fuel is used.
--
-- Loadouts is tools/migrate_loadouts.py: the rows of a MySQL dump and their gathering (Loadouts),
-- and the PostgreSQL statement (Loadouts/Insert).
--
-- Audit is tools/bspaudit/audit.py: the materials that a map refers to and a client cannot find,
-- the entities of a map out of its text (Audit/Entities), the strip rules and stubs (Audit/Report),
-- and main() (Audit/Run). Content reads the VPK trees of tools/bspaudit/collect_content_index.py
-- and fastdl/tools/mapvote_images.py, and Content/Lumps the lumps of tools/bspaudit/bsplib.py;
-- files are lists of bytes. Content/Collect is the content index, and Content/Libraries the search
-- for the game, over the paths of a machine that are parameters. No fuel is used. The other modules
-- of Audit and Content hold proofs.
--
-- Vpk is tools/workshop/pack_vpk.py: collect(), build() and verify(). A file is a list of bytes,
-- the directory a list of its folders with their files; a name is its UTF-8 bytes, which Content
-- reads as latin-1. CRC-32 and MD5 are parameters. The reader is that of Content. The other modules
-- of Vpk hold proofs.
--
-- MapVote is fastdl/tools/mapvote_images.py: the content of the workshop items (MapVote) and the
-- text files (MapVote/Config), the index of what the items hold (MapVote/Index), what each server
-- covers (MapVote/Survey), what is to be generated (MapVote/Decide), the files that are written
-- (MapVote/Write), and previews() and main() (MapVote/Run). A KeyError is a result of its own.
-- The output directory has index.json in it, whose JSON is a parameter, and a map that is cut off in
-- its header ends the indexing. Content directories, downloads and the answers of Steam are
-- parameters; no fuel is used. The other modules of MapVote hold proofs.
--
-- WeaponClone is tools/weapon-clone/generate.py: the edits of a text (WeaponClone), mentions() and
-- restate() (WeaponClone/Restate), and the tables, load(), build() and main()
-- (WeaponClone/Generate). The reader of the theaters, survival-economy/kv.py, is not in the
-- repository: a node has the attributes that the script reads, and find(), text() and the
-- definitions of weapon_upgrades are parameters. The loop of mentions() has as many rounds as there
-- are nodes, which WeaponClone/Mentions proves to be enough. The other modules of WeaponClone hold
-- proofs.
--
-- Icon is the part of fastdl/tools/render_icon.py in front of Blender: parse_smd(), and the joining
-- of the models in main(). Python's floats are a parameter; no fuel is used. Icon/Mesh holds
-- proofs.
--
-- Not modelled: what is printed, the arguments of the commands, the JSON and HTTP of the workshop
-- tool and of the index, zip files, the HTTP of fastdl/tools/mapvote_images.py, what
-- fastdl/tools/render_icon.py tells Blender and its parse_config(), survival-economy/kv.py, and all
-- that is not Python: plugins, services, theaters and assets.
pub mod Base
pub mod Theater
pub mod Workshop
pub mod Loadouts
pub mod Audit
pub mod Content
pub mod Vpk
pub mod MapVote
pub mod WeaponClone
pub mod Icon
