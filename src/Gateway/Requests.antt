-- ===== src/Gateway/Requests.antt =====
-- The requests that web/src/api/k8s.ts sends. `encode` is `encodeURIComponent`, `digits` is `String` of
-- a number. The query of a request is a dictionary in the order of `URLSearchParams`.
use kube_console.Shared.{
  ℕ, Bool, true, false, List, [], ◌∷◌, ◌++◌, Option, none, some, String, get_or, if◌then◌else◌,
}
use kube_console.Shared.Maps.{Dict, insert}
use kube_console.Shared.Text.{Text, codes}
use kube_console.Gateway.Path.{ResourceRef, PathOptions, resource_path}

abbrev pub table_accept : Text
table_accept = codes "application/json;as=Table;v=v1;g=meta.k8s.io,application/json"

abbrev pub json_accept : Text
json_accept = codes "application/json"

pub record Request : Type 0 where
  pub verb : String
  pub path : Text
  pub params : Dict Text
  pub accept : Option Text
  pub content_type : Option Text
  pub body : Option Text

pub record ListOptions : Type 0 where
  pub namespace : Option Text
  pub limit : Option ℕ
  pub continue_token : Option Text
  pub label_selector : Option Text
  pub field_selector : Option Text

-- `if (v !== undefined && v !== "") params.set(key, v)`
unfoldable pub set_given : String → Option Text → Dict Text → Dict Text
set_given key none params = params
set_given key (some []) params = params
set_given key (some (c ∷ cs)) params = insert key (c ∷ cs) params

-- `if (flag === true) params.set(key, value)`
unfoldable pub set_if : Bool → String → Text → Dict Text → Dict Text
set_if true key value params = insert key value params
set_if false key value params = params

-- Where only a namespace is given.
abbrev pub in_namespace : Option Text → PathOptions
in_namespace namespace = record { namespace = namespace; name = none; subresource = none }

abbrev pub named_in : Option Text → Text → PathOptions
named_in namespace name = record { namespace = namespace; name = some name; subresource = none }

abbrev pub core_v1 : Text → ResourceRef
core_v1 resource = record { group = []; version = codes "v1"; resource = resource }

abbrev pub read_of : Text → Dict Text → Text → Request
read_of path params accept = record {
  verb = "GET";
  path = path;
  params = params;
  accept = some accept;
  content_type = none;
  body = none;
}

-- `ApplyOptions`; `force` is what the option says, if anything.
pub record ApplyOptions : Type 0 where
  pub dry_run : Bool
  pub force : Option Bool

pub data PatchType : Type 0 where
  merge : PatchType
  strategic : PatchType

unfoldable pub patch_content_type : PatchType → Text
patch_content_type merge = codes "application/merge-patch+json"
patch_content_type strategic = codes "application/strategic-merge-patch+json"

-- The metadata of an object that `eventsFor` looks at.
pub record Identity : Type 0 where
  pub uid : Option Text
  pub name : Option Text
  pub namespace : Option Text

unfoldable pub selector : Text → Option Text → List Text
selector prefix none = []
selector prefix (some value) = (prefix ++ value) ∷ []

-- `selectors.join(",")`
unfoldable pub join_commas : List Text → Text
join_commas [] = []
join_commas (s ∷ []) = s
join_commas (s ∷ t ∷ rest) = s ++ (44 ∷ join_commas (t ∷ rest))

unfoldable pub event_selectors : Identity → List Text
event_selectors o =
    selector (codes "involvedObject.uid=") o.uid ++ selector (codes "involvedObject.name=") o.name

pub record LogsOptions : Type 0 where
  pub container : Option Text
  pub tail_lines : Option ℕ
  pub since_seconds : Option ℕ
  pub timestamps : Bool
  pub previous : Bool
  pub follow : Bool

module _ (encode : Text → Text) (digits : ℕ → Text) where
  unfoldable pub set_number : String → Option ℕ → Dict Text → Dict Text
  set_number key none params = params
  set_number key (some n) params = insert key (digits n) params

  -- The request of `listAsTable(ref, opts)`.
  unfoldable pub list_request : ResourceRef → ListOptions → Request
  list_request ref opts =
      read_of (resource_path encode ref (in_namespace opts.namespace))
        (set_given "fieldSelector" opts.field_selector (
          set_given "labelSelector" opts.label_selector (
            set_given "continue" opts.continue_token
              (set_number "limit" opts.limit (insert "includeObject" (codes "Metadata") [])))))
        table_accept

  -- The request of a round of `fetchNamespaces`.
  unfoldable pub namespaces_request : ℕ → Text → Request
  namespaces_request limit cont =
      read_of (resource_path encode (core_v1 (codes "namespaces")) (in_namespace none))
        (set_given "continue" (some cont) (insert "limit" (digits limit) [])) json_accept

  unfoldable pub nodes_request : Request
  nodes_request =
      read_of (resource_path encode (core_v1 (codes "nodes")) (in_namespace none))
        (insert "resourceVersion" (codes "0") []) json_accept

  unfoldable pub pod_count_request : Request
  pod_count_request =
      read_of (resource_path encode (core_v1 (codes "pods")) (in_namespace none))
        (insert "includeObject" (codes "None") (insert "limit" (codes "500") [])) table_accept

  unfoldable pub object_request : ResourceRef → Option Text → Text → Request
  object_request ref namespace name =
      read_of (resource_path encode ref (named_in namespace name)) [] json_accept

  -- The request of `serverSideApply`.
  unfoldable pub apply_request : ResourceRef → Option Text → Text → Text → ApplyOptions → Request
  apply_request ref namespace name yaml opts = record {
    verb = "PATCH";
    path = resource_path encode ref (named_in namespace name);
    params = set_if opts.dry_run "dryRun" (codes "All") (
        insert "force" (if get_or opts.force true then codes "true" else codes "false")
          (insert "fieldManager" (codes "kube-console") []));
    accept = some json_accept;
    content_type = some (codes "application/apply-patch+yaml");
    body = some yaml;
  }

  -- The request of `patchObject`, whose body is the text of the patch.
  unfoldable pub patch_request :
      ResourceRef → Option Text → Text → Text → Option PatchType → Option Text → Request
  patch_request ref namespace name patch type subresource = record {
    verb = "PATCH";
    path =
        resource_path encode ref (record (named_in namespace name) { subresource = subresource });
    params = [];
    accept = some json_accept;
    content_type = some (patch_content_type (get_or type merge));
    body = some patch;
  }

  unfoldable pub create_request : ResourceRef → Option Text → Text → Request
  create_request ref namespace object = record {
    verb = "POST";
    path = resource_path encode ref (in_namespace namespace);
    params = [];
    accept = some json_accept;
    content_type = some json_accept;
    body = some object;
  }

  unfoldable pub delete_request : ResourceRef → Option Text → Text → Request
  delete_request ref namespace name = record {
    verb = "DELETE";
    path = resource_path encode ref (named_in namespace name);
    params = [];
    accept = some json_accept;
    content_type = none;
    body = none;
  }

  -- No request where there is nothing to select by.
  unfoldable pub events_with : Identity → List Text → Option Request
  events_with o [] = none
  events_with o (s ∷ ss) = some (
      read_of (resource_path encode (core_v1 (codes "events")) (in_namespace o.namespace))
        (insert "limit" (codes "200") (insert "fieldSelector" (join_commas (s ∷ ss)) []))
        json_accept)

  -- The request of `eventsFor(obj)`, if there is one.
  unfoldable pub events_request : Identity → Option Request
  events_request o = events_with o (event_selectors o)

  -- `logsUrl(namespace, pod, opts)`
  unfoldable pub logs_request : Text → Text → LogsOptions → Text × Dict Text
  logs_request namespace pod opts = (
    resource_path encode (core_v1 (codes "pods"))
        (record { namespace = some namespace; name = some pod; subresource = some (codes "log") }),
    set_if opts.follow "follow" (codes "true") (
        set_if opts.previous "previous" (codes "true") (
          set_if opts.timestamps "timestamps" (codes "true") (
            set_number "sinceSeconds" opts.since_seconds
              (set_number "tailLines" opts.tail_lines (set_given "container" opts.container []))))),
  )

  -- `watchUrl(ref, opts)`
  unfoldable pub watch_request :
      ResourceRef → Option Text → Text → Option Text → Option Text → Text × Dict Text
  watch_request ref namespace resource_version label_selector field_selector = (
    resource_path encode ref (in_namespace namespace),
    set_given "fieldSelector" field_selector (
        set_given "labelSelector" label_selector (
          insert "resourceVersion" resource_version (
            insert "includeObject" (codes "Metadata")
              (insert "allowWatchBookmarks" (codes "true") (insert "watch" (codes "true") []))))),
  )
