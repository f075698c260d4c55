-- ===== src/Workshop/Render/Generated.antt =====
-- generated() and rendered() of tools/workshop/workshop_lock.py: all that follows from the lockfile.
use tug.Base.{ℕ, Bool, List, [], ◌∷◌, ◌++◌, map}
use tug.Base.Text.{Text, codes, text_lt}
use tug.Base.Sort.{sorted}
use tug.Base.Dict.{Dict, values}
use tug.Base.Result.{Result, ok, raised, too_deep}
use tug.Workshop.Lock.{Item, Lock, LockError, partition}
use tug.Workshop.Refresh.{first_seen, concat}
use tug.Workshop.Splice.{SpliceError, splice_all}
use tug.Workshop.Render.{Plan, dockerfile_stages, dockerfile_layers, acf}

-- sorted({s for item in lock["items"].values() for s in item["servers"]})
unfoldable pub servers_of : Lock → List Text
servers_of lock =
    sorted text_lt
      (first_seen [] (concat (map (λ (item : Item). item.servers) (values lock.items))))

-- out[DOCKERFILE]
unfoldable pub regions : Lock → Plan → Dict (List Text)
unfolding servers_of dockerfile_stages dockerfile_layers
regions lock plan =
    (codes "workshop stages", dockerfile_stages lock plan)
    ∷ map (λ server. (codes "workshop layers: " ++ server, dockerfile_layers server plan))
        (servers_of lock)

abbrev pub region_lt : Text × List Text → Text × List Text → Bool
region_lt a b = text_lt a.0 b.0

pub data RenderError : Type 0 where
  lock_error : LockError → RenderError
  splice_error : SpliceError → RenderError

pub record RenderedFiles : Type 0 where
  pub dockerfile : Text
  pub manifests : Dict Text

-- rendered(): the Dockerfile, and the .acf of each server
unfoldable pub rendered : (Text → ℕ) → Lock → Text → Result RenderError RenderedFiles
unfolding partition regions splice_all servers_of acf
rendered digest lock text = elim (partition digest lock) [
  | raised e ↦ raised (lock_error e)
  | too_deep ↦ too_deep
  | ok plan ↦ elim (splice_all text (sorted region_lt (regions lock plan))) [
    | raised e ↦ raised (splice_error e)
    | too_deep ↦ too_deep
    | ok content ↦ ok (record {
      dockerfile = content;
      manifests = map (λ server. (server, acf lock server)) (servers_of lock);
    })
  ]
]
