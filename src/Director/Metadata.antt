-- ===== src/Director/Metadata.antt =====
-- metadata.go: the labels and annotations of GitOps tools, and the filters for generated objects.
pub mod Labels
use zen_lead.Base.{String, Bool, true, false, not, ◌||◌, List, [], ◌∷◌, str_eq, if◌then◌else◌}
use zen_lead.Base.Dict.{Dict, filter}

abbrev pub contains : List String → String → Bool
contains [] k = false
contains (x ∷ xs) k = str_eq x k || contains xs k

-- gitOpsTrackingLabels
abbrev pub git_ops_tracking_labels : List String
git_ops_tracking_labels =
    "app.kubernetes.io/instance" ∷ "app.kubernetes.io/managed-by" ∷ "app.kubernetes.io/part-of"
    ∷ "app.kubernetes.io/version" ∷ "argocd.argoproj.io/instance" ∷ "fluxcd.io/part-of"
    ∷ "kustomize.toolkit.fluxcd.io/name" ∷ "kustomize.toolkit.fluxcd.io/namespace"
    ∷ "kustomize.toolkit.fluxcd.io/revision" ∷ []

-- gitOpsTrackingAnnotations
abbrev pub git_ops_tracking_annotations : List String
git_ops_tracking_annotations =
    "argocd.argoproj.io/sync-wave" ∷ "argocd.argoproj.io/sync-options" ∷ "fluxcd.io/sync-checksum"
    ∷ "kustomize.toolkit.fluxcd.io/checksum" ∷ []

-- filterGitOpsLabels; a nil map gives an empty one
unfoldable pub filter_git_ops_labels : Dict String → Dict String
filter_git_ops_labels = filter (λ k v. not (contains git_ops_tracking_labels k))

-- filterGitOpsAnnotations
unfoldable pub filter_git_ops_annotations : Dict String → Dict String
filter_git_ops_annotations = filter (λ k v. not (contains git_ops_tracking_annotations k))
