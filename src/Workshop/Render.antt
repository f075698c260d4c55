-- ===== src/Workshop/Render.antt =====
-- dockerfile_stages(), dockerfile_layers() and acf() of tools/workshop/workshop_lock.py.
pub mod Generated
use tug.Base.{
  ℕ, zero, suc, ◌+◌, ◌*◌, ◌^◌, Bool, true, false, not, ◌&&◌, ◌||◌, List, [], ◌∷◌, ◌++◌, map,
  if◌then◌else◌, Option, none, some, ◌==◌, keep_if, length,
}
use mathlib.Core.List.{reverse}
use tug.Base.Text.{Text, codes, nl, text_lt, text_eq, mem_text}
use tug.Base.Sort.{sorted}
use tug.Base.Dict
use tug.Base.Dict.{Dict, keys}
use tug.Base.Numbers.{decimal, round_div}
use tug.Workshop.Lock.{Item, Lock, id_lt}
use tug.Workshop.Splice.{join_lines}

-- A rendered plan: the groups with their buckets, as partition() returns them.
abbrev pub Plan : Type 0
Plan = Dict (Dict (List Text))

unfoldable pub stage_name : Text → Text → Text
stage_name group key = codes "ws-" ++ (group ++ (45 ∷ key))

-- text.split("-"), with the part that is being read
unfoldable pub split_dash : Text → Text → List Text
split_dash part [] = part ∷ []
split_dash part (c ∷ s) =
    let here = split_dash [] s in
    let on = split_dash (part ++ c ∷ []) s in if c == 45 then part ∷ here else on

-- lock["items"][i]; partition() makes buckets of ids of the lock only
abbrev field_of {ℓ} : {A : Type ℓ} → A → (Item → A) → Lock → Text → A
field_of missing f lock i = elim (Dict.get i lock.items) [ none ↦ missing | some item ↦ f item ]

abbrev sum : List ℕ → ℕ
sum [] = 0
sum (n ∷ ns) = n + sum ns

abbrev pub size_of : Lock → Text → ℕ
size_of lock i = field_of 0 (λ item. item.size) lock i

-- s.rstrip(" \\"), of a reversed text
unfoldable pub drop_continued : Text → Text
drop_continued [] = []
drop_continued (c ∷ s) = if c == 32 || c == 92 then drop_continued s else c ∷ s

abbrev pinned_line : Lock → Text → Text
pinned_line lock i =
    codes "    " ++ (i ++ (58 ∷ (field_of [] (λ item. item.manifest) lock i ++ 32 ∷ 92 ∷ [])))

-- pinned, with the last line stripped
unfoldable pub pinned_lines : Lock → List Text → List Text
unfolding drop_continued
pinned_lines lock [] = []
pinned_lines lock (i ∷ []) = reverse (drop_continued (reverse (pinned_line lock i))) ∷ []
pinned_lines lock (i ∷ j ∷ ids) = pinned_line lock i ∷ pinned_lines lock (j ∷ ids)

unfoldable pub stage_lines : Lock → Text → Text × List Text → List Text
unfolding pinned_lines stage_name
stage_lines lock group (key, ids) =
    []
    ∷ (codes "# "
        ++ (decimal (length ids)
            ++ (codes " items, "
                ++ (decimal (round_div (sum (map (size_of lock) ids)) (2 ^ 20)) ++ codes " MB"))))
    ∷ (codes "FROM workshop-downloader AS " ++ stage_name group key)
    ∷ (codes "RUN fetch-items /out " ++ 92 ∷ [])
    ∷ pinned_lines lock ids

unfoldable pub flat_lines {ℓ} : {A : Type ℓ} → (A → List Text) → List A → List Text
flat_lines f [] = []
flat_lines f (x ∷ xs) = f x ++ flat_lines f xs

abbrev group_lt : Text × Dict (List Text) → Text × Dict (List Text) → Bool
group_lt a b = text_lt a.0 b.0

abbrev bucket_lt : Text × List Text → Text × List Text → Bool
bucket_lt a b = text_lt a.0 b.0

unfoldable pub dockerfile_stages : Lock → Plan → List Text
unfolding stage_lines flat_lines
dockerfile_stages lock plan =
    flat_lines
      (λ (g : Text × Dict (List Text)). flat_lines (stage_lines lock g.0) (sorted bucket_lt g.1))
      (sorted group_lt plan)

unfoldable pub copy_line : Text → Text → Text
unfolding stage_name
copy_line group key =
    codes "COPY --link --chown=1000:1000 --from="
    ++ (stage_name group key
        ++ codes " /out /opt/insurgency-server/steamapps/workshop/content/222880/")

unfoldable pub layer_lines : Text → Text × Dict (List Text) → List Text
unfolding split_dash copy_line
layer_lines server (group, buckets) =
    if mem_text server (split_dash [] group)
    then map (λ (b : Text × List Text). copy_line group b.0) (sorted bucket_lt buckets)
    else []

unfoldable pub dockerfile_layers : Text → Plan → List Text
unfolding layer_lines flat_lines
dockerfile_layers server plan = flat_lines (layer_lines server) (sorted group_lt plan)

-- '%s"%s"\t\t"%s"' with the tabs that come first
unfoldable pub pair_line : Text → Text → Text → Text
pair_line indent key value = indent ++ (34 ∷ (key ++ (34 ∷ 9 ∷ 9 ∷ 34 ∷ (value ++ 34 ∷ []))))

abbrev t2 : Text
t2 = 9 ∷ 9 ∷ []

abbrev t3 : Text
t3 = 9 ∷ 9 ∷ 9 ∷ []

abbrev pub quoted : Text → Text
quoted s = 34 ∷ (s ++ 34 ∷ [])

-- sorted((i for i, item in items if server in item["servers"]), key=int)
unfoldable pub installed_ids : Lock → Text → List Text
installed_ids lock server =
    sorted id_lt (keys (keep_if (λ (e : Text × Item). mem_text server (e.1).servers) lock.items))

unfoldable pub installed_lines : Lock → Text → List Text
unfolding pair_line
installed_lines lock i =
    (t2 ++ quoted i)
    ∷ (t2 ++ 123 ∷ [])
    ∷ pair_line t3 (codes "size") (decimal (size_of lock i))
    ∷ pair_line t3 (codes "timeupdated") (decimal (field_of 0 (λ item. item.time_updated) lock i))
    ∷ pair_line t3 (codes "manifest") (field_of [] (λ item. item.manifest) lock i)
    ∷ (t2 ++ 125 ∷ [])
    ∷ []

unfoldable pub details_lines : Lock → Text → List Text
unfolding pair_line
details_lines lock i =
    let stamp = decimal (field_of 0 (λ item. item.time_updated) lock i) in
    let pinned = field_of [] (λ item. item.manifest) lock i in
    (t2 ++ quoted i)
    ∷ (t2 ++ 123 ∷ [])
    ∷ pair_line t3 (codes "manifest") pinned
    ∷ pair_line t3 (codes "timeupdated") stamp
    ∷ pair_line t3 (codes "timetouched") stamp
    ∷ pair_line t3 (codes "latest_timeupdated") stamp
    ∷ pair_line t3 (codes "latest_manifest") pinned
    ∷ (t2 ++ 125 ∷ [])
    ∷ []

unfoldable pub acf_header : Lock → List Text → List Text
unfolding pair_line
acf_header lock ids =
    pair_line (9 ∷ []) (codes "appid") (codes "222880")
    ∷ pair_line (9 ∷ []) (codes "SizeOnDisk") (decimal (sum (map (size_of lock) ids)))
    ∷ map (λ key. pair_line (9 ∷ []) key (codes "0"))
        (codes "NeedsUpdate"
          ∷ codes "NeedsDownload"
          ∷ codes "TimeLastUpdated"
          ∷ codes "TimeLastAppRan"
          ∷ codes "LastBuildID"
          ∷ [])

unfoldable pub acf : Lock → Text → Text
unfolding installed_ids installed_lines details_lines acf_header flat_lines
acf lock server =
    let ids = installed_ids lock server in
    join_lines (
      (quoted (codes "AppWorkshop") ∷ codes "{" ∷ acf_header lock ids)
      ++ (((9 ∷ quoted (codes "WorkshopItemsInstalled"))
            ∷ (9 ∷ codes "{")
            ∷ flat_lines (installed_lines lock) ids)
          ++ (((9 ∷ codes "}")
                ∷ (9 ∷ quoted (codes "WorkshopItemDetails"))
                ∷ (9 ∷ codes "{")
                ∷ flat_lines (details_lines lock) ids)
              ++ ((9 ∷ codes "}") ∷ codes "}" ∷ [] ∷ []))))
