-- ===== src/Import/Paths.antt =====
-- The category paths that a document names: `tree_chains`, `path_chain` and `_collect_chain` of
-- media_service/controllers/transfer_import.py.
use media_service_m.Prelude.{
  ℕ, Bool, true, false, not, Option, none, some, List, [], ◌∷◌, ◌++◌, take, filter, length, ltb,
  if◌then◌else◌, Text, text_eq,
}
use media_service_m.Effect.{
  Result, ok, err, http, import_refused, ImportRefusal, no_usable_slug, empty_path, path_too_deep,
}
use media_service_m.Model.Enums.{MediaCategory, MediaVisibility}
use media_service_m.Model.Store.{Externals, Settings}
use media_service_m.Keys.{strip}
use media_service_m.Shares.{split}

abbrev pub refusal : {A : Type 0} → ImportRefusal → Result A
refusal r = err (http 422 (import_refused r))

mutual
  pub data ImportCategoryNode : Type 0 where
    node : Text → Text → Children → ImportCategoryNode

  pub data Children : Type 0 where
    no_more : Children
    child : ImportCategoryNode → Children → Children

pub record ImportObjectEntry : Type 0 where
  pub id : ℕ
  pub filename : Option Text
  pub category : MediaCategory
  pub category_paths : List Text
  pub visibility : MediaVisibility
  pub size_bytes : ℕ
  pub sha256 : Option Text
  pub mime_type : Text

pub record ImportManifest : Type 0 where
  pub category_tree : Children
  pub objects : List ImportObjectEntry

-- A chain from the root down, of a name and a slug for each level.
abbrev pub CategoryChain : Type 0
CategoryChain = List (Text × Text)

abbrev is_empty : {A : Type 0} → List A → Bool
is_empty [] = true
is_empty (a ∷ rest) = false

-- `_slug_of`.
unfoldable pub slug_of : Externals → List Text → Result Text
slug_of ext [] = refusal no_usable_slug
slug_of ext (candidate ∷ candidates) =
    let rest = slug_of ext candidates in
    let slug = take 50 (ext.slugify candidate) in if is_empty slug then rest else ok slug

abbrev pub then_ok : {A B : Type 0} → Result A → (A → Result B) → Result B
then_ok (ok a) f = f a
then_ok (err e) f = err e

-- `tree_chains`: what the stack yields, each node before its children and these before its siblings.
unfoldable mutual
  pub tree_chains : Externals → CategoryChain → Children → Result (List CategoryChain)
  tree_chains ext prefix no_more = ok []
  tree_chains ext prefix (child n siblings) =
      then_ok (node_chains ext prefix n)
        (λ chains. then_ok (tree_chains ext prefix siblings) (λ rest. ok (chains ++ rest)))

  pub node_chains : Externals → CategoryChain → ImportCategoryNode → Result (List CategoryChain)
  node_chains ext prefix (node name slug children) = elim (slug_of ext (slug ∷ name ∷ [])) [
    | err e ↦ err e
    | ok s ↦
        then_ok (tree_chains ext (prefix ++ (name, s) ∷ []) children)
          (λ rest. ok ((prefix ++ (name, s) ∷ []) ∷ rest))
  ]

-- `[segment for segment in path.split(PATH_SEPARATOR) if segment.strip()]`.
abbrev segments_of : Externals → Text → List Text
segments_of ext path = filter (λ (t : Text). not (is_empty (strip ext t))) (split b'/' path)

-- The chain of slugs that double as names.
unfoldable pub slug_chain : Externals → List Text → Result CategoryChain
unfolding slug_of
slug_chain ext [] = ok []
slug_chain ext (segment ∷ segments) =
    then_ok (slug_of ext (segment ∷ []))
      (λ slug. then_ok (slug_chain ext segments) (λ rest. ok ((slug, slug) ∷ rest)))

unfoldable pub path_chain : Settings → Externals → Text → Result CategoryChain
path_chain conf ext path =
    let segments = segments_of ext path in
    if is_empty segments
    then refusal empty_path
    else if ltb conf.import_max_category_depth (length segments)
    then refusal path_too_deep
    else slug_chain ext segments

-- `_chain_key`.
unfoldable pub chain_key : CategoryChain → Text
chain_key [] = []
chain_key ((name, slug) ∷ []) = slug
chain_key ((name, slug) ∷ level ∷ levels) = slug ++ b'/' ∷ chain_key (level ∷ levels)

-- A `dict` keyed by paths, in the order of insertion.
abbrev pub PathMap : Type 0 → Type 0
PathMap A = List (Text × A)

abbrev pub lookup : {A : Type 0} → Text → PathMap A → Option A
lookup key [] = none
lookup key ((k, a) ∷ rest) = if text_eq k key then some a else lookup key rest

-- `dict.setdefault`.
abbrev pub set_default : {A : Type 0} → Text → A → PathMap A → PathMap A
set_default key a [] = (key, a) ∷ []
set_default key a ((k, b) ∷ rest) =
    let deeper = set_default key a rest in if text_eq k key then (k, b) ∷ rest else (k, b) ∷ deeper

-- The loop of `_collect_chain`, from the prefix already seen to the levels still to come.
unfoldable pub collect_prefixes :
    CategoryChain → CategoryChain → PathMap CategoryChain → PathMap CategoryChain
unfolding chain_key
collect_prefixes prefix [] chains = chains
collect_prefixes prefix (level ∷ levels) chains =
    let deeper = prefix ++ level ∷ [] in
    collect_prefixes deeper levels (set_default (chain_key deeper) deeper chains)

abbrev pub collect_chain : PathMap CategoryChain → CategoryChain → PathMap CategoryChain
collect_chain chains chain = collect_prefixes [] chain chains

abbrev pub collect_each : PathMap CategoryChain → List CategoryChain → PathMap CategoryChain
collect_each chains [] = chains
collect_each chains (c ∷ cs) = collect_each (collect_chain chains c) cs

abbrev pub collect_paths :
    Settings → Externals → List Text → PathMap CategoryChain → Result (PathMap CategoryChain)
collect_paths conf ext [] chains = ok chains
collect_paths conf ext (path ∷ paths) chains =
    then_ok (path_chain conf ext path)
      (λ chain. collect_paths conf ext paths (collect_chain chains chain))

abbrev pub collect_objects :
    Settings
    → Externals
    → List ImportObjectEntry
    → PathMap CategoryChain
    → Result (PathMap CategoryChain)
collect_objects conf ext [] chains = ok chains
collect_objects conf ext (entry ∷ entries) chains =
    then_ok (collect_paths conf ext entry.category_paths chains)
      (λ more. collect_objects conf ext entries more)

-- Every path that a document names: the declared tree first, then those of the rows.
unfoldable pub named_paths : Settings → Externals → ImportManifest → Result (PathMap CategoryChain)
named_paths conf ext manifest =
    then_ok (tree_chains ext [] manifest.category_tree)
      (λ declared. collect_objects conf ext manifest.objects (collect_each [] declared))
