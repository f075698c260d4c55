-- ===== src/Workshop/Examples.antt =====
-- The theorems on the workshop tool at small lockfiles and texts.
mod Rendering
use tug.Base.{ℕ, List, [], ◌∷◌, ◌++◌, map, Option, none, some, ◌≡◌, refl, All}
use tug.Base.Text.{Text, codes, text_eq, text_lt, starts_with, mem_text}
use tug.Base.Sort.{insert, sorted}
use tug.Base.Dict
use tug.Base.Dict.{Dict, append_to}
use tug.Base.Numbers.{number, two_digits, decimal, digits_of, number_from, round_div}
use tug.Base.Result.{Result, ok, raised, too_deep}
use tug.Base.Entries.{Distinct}
use tug.Workshop.Fetch.{file_lt, files_of, published_file_details, render}
use tug.Workshop.Fetched.{published_file_details-get}
use tug.Workshop.Render.Generated.{
  RenderError, RenderedFiles, rendered, region_lt, regions, servers_of,
}
use tug.Workshop.Render.{
  acf, acf_header, copy_line, details_lines, dockerfile_layers, dockerfile_stages, drop_continued,
  flat_lines, installed_ids, installed_lines, layer_lines, pair_line, pinned_lines, split_dash,
  stage_lines, stage_name,
}
use tug.Workshop.Lock.{
  Item, Lock, partition, group_of, bucket_of, key_of, is_solo, fill_buckets, sort_buckets,
  group_items, join_dash, partition_groups, sort_ids,
}
use tug.Workshop.Lock.Filling.{has_key}
use tug.Workshop.Lock.Buckets.{bucket, lock_of, partition-bucket, bucket-insert}
use tug.Base.Split.{split_once, drop_prefix}
use tug.Workshop.Splice.{splice, marker, check, fresh, join_lines, splice_all, start_of, end_of}
use tug.Workshop.Splice.Again.{splice-again}
use tug.Workshop.Refresh.{
  Details, refresh, pin_all, first_seen, pin, new_lock, bucket_counts, sticky_count,
}
use tug.Workshop.Refresh.Sticky.{Kept, refresh-Kept}

abbrev main_item : ℕ → Item
main_item n = record {
  title = codes "map";
  manifest = codes "9";
  size = n;
  time_updated = 5;
  servers = codes "main" ∷ [];
}

abbrev first_items : Dict Item
first_items = (codes "12", main_item 10) ∷ (codes "13", main_item 20) ∷ []

abbrev last_items : Dict Item
last_items = (codes "7", main_item 30) ∷ []

abbrev solo_item : Text × Item
solo_item = (codes "8", main_item 900)

abbrev counts : Dict ℕ
counts = (codes "main", 2) ∷ []

abbrev three_items : Lock
three_items = lock_of (some 500) counts (first_items ++ last_items)

abbrev odd_ids : List Text
odd_ids = codes "7" ∷ codes "13" ∷ []

abbrev plan_of_three : Dict (Dict (List Text))
plan_of_three = (codes "main", (codes "00", codes "12" ∷ []) ∷ (codes "01", odd_ids) ∷ []) ∷ []

abbrev plan_of_four : Dict (Dict (List Text))
plan_of_four =
    (
      codes "main",
      (codes "00", codes "12" ∷ []) ∷ (codes "01", odd_ids) ∷ (codes "8", codes "8" ∷ []) ∷ [],
    )
    ∷ []

partition-bucket_example : bucket plan_of_three (codes "main") (codes "01") ≡ odd_ids
unfolding partition Dict.get sorted insert has_key key_of bucket_of is_solo group_of number
    two_digits text_eq append_to Dict.update fill_buckets sort_buckets text_lt
partition-bucket_example =
    partition-bucket number three_items (codes "main") (codes "01") 2 plan_of_three refl refl

bucket-insert_example :
    bucket plan_of_four (codes "main") (codes "01")
    ≡ bucket plan_of_three (codes "main") (codes "01")
unfolding partition Dict.get sorted insert has_key key_of bucket_of is_solo group_of number
    two_digits text_eq append_to Dict.update fill_buckets sort_buckets text_lt
bucket-insert_example =
    bucket-insert number (some 500) counts first_items last_items solo_item (codes "main")
      (codes "01") 2 plan_of_three plan_of_four refl refl refl refl

abbrev stale_text : Text
stale_text = codes "FROM a\n# >>> workshop-lock: r >>>\nold\n# <<< workshop-lock: r <<<\nEND"

abbrev new_text : Text
new_text = codes "FROM a\n# >>> workshop-lock: r >>>\nnew\n# <<< workshop-lock: r <<<\nEND"

splice-again_example : splice new_text (codes "r") (codes "new" ∷ []) ≡ ok new_text
unfolding splice split_once starts_with marker drop_prefix
splice-again_example = splice-again stale_text (codes "r") (codes "new" ∷ []) new_text refl refl

abbrev details_of_one : Dict Details
details_of_one =
    (
      codes "7",
      record {
        result = some 1;
        consumer_app_id = codes "222880";
        title = codes "map";
        hcontent_file = codes "9";
        file_size = 30;
        time_updated = 5;
      },
    )
    ∷ []

abbrev refreshed : Lock
refreshed = lock_of (some 500) counts last_items

refresh-Kept_example : Kept three_items refreshed (codes "main")
unfolding refresh pin_all sorted first_seen mem_text pin Dict.get text_eq new_lock bucket_counts
    Dict.update group_of sticky_count
refresh-Kept_example =
    refresh-Kept ((codes "main", codes "7" ∷ []) ∷ []) details_of_one three_items refreshed
      (codes "7") (main_item 30) refl refl
