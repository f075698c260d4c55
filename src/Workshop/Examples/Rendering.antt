-- ===== src/Workshop/Examples/Rendering.antt =====
-- The theorems on requests and on render() of the workshop tool at one lockfile and Dockerfile.
use tug.Base.{keep_if, [], ◌∷◌, ◌++◌, map, none, some, ◌≡◌, refl}
use tug.Base.Text.{Text, codes, text_eq, text_lt, starts_with, mem_text}
use tug.Base.Sort.{insert, sorted}
use tug.Base.Dict
use tug.Base.Dict.{Dict, append_to}
use tug.Base.Numbers.{number, two_digits, decimal, digits_of, number_from, round_div}
use tug.Base.Result.{Result, ok, raised, too_deep}
use tug.Base.Entries.{Distinct}
use tug.Workshop.Fetch.{file_lt, files_of, published_file_details, render, write_changed}
use tug.Workshop.Fetched.{published_file_details-get}
use tug.Workshop.Rendered.{overlaid, is_changed, get-render}
use tug.Workshop.Render.Generated.{RenderError, RenderedFiles, rendered, regions, servers_of}
use tug.Workshop.Render.{
  acf, acf_header, copy_line, details_lines, dockerfile_layers, dockerfile_stages, drop_continued,
  flat_lines, installed_ids, installed_lines, layer_lines, pair_line, pinned_lines, split_dash,
  stage_lines, stage_name,
}
use tug.Workshop.Lock.{
  partition, group_of, bucket_of, key_of, is_solo, fill_buckets, sort_buckets, group_items,
  join_dash, partition_groups, sort_ids,
}
use tug.Base.Split.{split_once, drop_prefix}
use tug.Workshop.Splice.{splice, marker, join_lines, splice_all}
use tug.Workshop.Refresh.{Details, first_seen}
use tug.Workshop.Examples.{odd_ids, refreshed}

abbrev entry_of_all : Details
entry_of_all = record {
  result = some 1;
  consumer_app_id = codes "222880";
  title = codes "map";
  hcontent_file = codes "9";
  file_size = 30;
  time_updated = 5;
}

published_file_details-get_example :
    (found : Dict Details) × (published_file_details
        (λ ids. some (map (λ i. (i, entry_of_all)) ids))
        odd_ids
      ≡ ok found)
    × (Dict.get (codes "13") found ≡ some entry_of_all)
unfolding mem_text text_eq
published_file_details-get_example =
    published_file_details-get (λ ids. some (map (λ i. (i, entry_of_all)) ids)) (λ i. entry_of_all)
      (λ chunk fits. refl) odd_ids (codes "13")

-- A Dockerfile with the regions of one server.
abbrev empty_regions : Text
empty_regions =
    codes
      "A\n# >>> workshop-lock: workshop stages >>>\n# <<< workshop-lock: workshop stages <<<\nB\n"
    ++ codes
        "# >>> workshop-lock: workshop layers: main >>>\n# <<< workshop-lock: workshop layers: main <<<\n"

abbrev or_none : Result RenderError RenderedFiles → RenderedFiles
or_none (ok out) = out
or_none (raised e) = record { dockerfile = []; manifests = [] }
or_none too_deep = record { dockerfile = []; manifests = [] }

abbrev rendered_one : RenderedFiles
rendered_one = or_none (rendered number refreshed empty_regions)

abbrev only_dockerfile : Dict Text
only_dockerfile = (codes "Dockerfile", empty_regions) ∷ []

abbrev rendered_files : Dict Text
rendered_files = sorted file_lt (files_of (codes "Dockerfile") (λ s. s) rendered_one)

one_rendered : rendered number refreshed empty_regions ≡ ok rendered_one
unfolding partition append_to Dict.update Dict.get text_eq group_of sorted fill_buckets key_of
    bucket_of sort_buckets two_digits number rendered first_seen mem_text text_lt decimal digits_of
    number_from round_div insert drop_prefix split_once starts_with group_items is_solo join_dash
    partition_groups sort_ids regions servers_of acf acf_header copy_line details_lines
    dockerfile_layers dockerfile_stages drop_continued flat_lines installed_ids installed_lines
    layer_lines pair_line pinned_lines split_dash stage_lines stage_name join_lines marker splice
    splice_all
one_rendered = refl

one_path_each : Distinct rendered_files
unfolding partition append_to Dict.update Dict.get text_eq group_of sorted fill_buckets key_of
    bucket_of sort_buckets two_digits number rendered first_seen mem_text text_lt decimal digits_of
    number_from round_div insert drop_prefix split_once starts_with group_items is_solo join_dash
    partition_groups sort_ids regions servers_of acf acf_header copy_line details_lines
    dockerfile_layers dockerfile_stages drop_continued flat_lines installed_ids installed_lines
    layer_lines pair_line pinned_lines split_dash stage_lines stage_name join_lines marker splice
    splice_all
one_path_each = (refl, (refl, tt))

get-render_example :
    (disk' : Dict Text) × (render number (codes "Dockerfile") (λ s. s) refreshed only_dockerfile
      ≡ ok (disk', keep_if (is_changed only_dockerfile) rendered_files))
    × (Dict.get (codes "main") disk' ≡ overlaid (Dict.get (codes "main") rendered_files) none)
    × (write_changed disk' rendered_files ≡ (disk', []))
unfolding Dict.get text_eq
get-render_example =
    get-render number (codes "Dockerfile") (λ s. s) refreshed empty_regions rendered_one
      only_dockerfile (codes "main") refl one_rendered one_path_each
