-- ===== src/Director/LeaderService/Annotations.antt =====
-- The annotations of the leader service that are about the leader pod.
use zen_lead.Base.{◌≡◌, String, Option, none, some, List, str_eq, Bool-cases, inl, inr}
use zen_lead.Base.Dict.{Dict, lookup, insert, get, lookup-insert, lookup-erase}
use zen_lead.Kube.Objects.{Pod, Service, ServicePort}
use zen_lead.Director.Reconciler.{Reconciler, State, ◌>>=◌}
use zen_lead.Director.Metadata.Labels.{lookup-filter_git_ops_annotations}
use zen_lead.Director.Naming.{
  current_leader_annotation, leader_pod_name_annotation, leader_pod_uid_annotation,
  leader_last_switch_time_annotation, is_enabled,
}
use zen_lead.Director.LeaderService.{
  set_leader, unset_leader, new_leader_service, new_annotations, note_switch, updated_annotations,
}

-- The three annotations name the leader, and they are missing where there is none.
pub record NamesLeader (leader : Option Pod) (m : Dict String) : Type 0 where
  pub current :
      lookup current_leader_annotation m ≡ elim leader [ none ↦ none | some p ↦ some p.name ]
  pub name :
      lookup leader_pod_name_annotation m ≡ elim leader [ none ↦ none | some p ↦ some p.name ]
  pub uid : lookup leader_pod_uid_annotation m ≡ elim leader [ none ↦ none | some p ↦ some p.uid ]

set_leader-NamesLeader : (p : Pod) (m : Dict String) → NamesLeader (some p) (set_leader p m)
unfolding set_leader
set_leader-NamesLeader p m = record {
  current = simp (lookup-insert);
  name = simp (lookup-insert);
  uid = simp (lookup-insert);
}

unset_leader-NamesLeader : (m : Dict String) → NamesLeader none (unset_leader m)
unfolding unset_leader
unset_leader-NamesLeader m = record {
  current = simp (lookup-erase);
  name = simp (lookup-erase);
  uid = simp (lookup-erase);
}

switch_time-NamesLeader :
    (leader : Option Pod) (text : String) (m : Dict String)
    → NamesLeader leader m
    → NamesLeader leader (insert leader_last_switch_time_annotation text m)
switch_time-NamesLeader leader text m h = record {
  current = simp (lookup-insert, h.current);
  name = simp (lookup-insert, h.name);
  uid = simp (lookup-insert, h.uid);
}

module _ ⦃r : Reconciler⦄ (svc : Service) where
  -- After a patch the annotations of the leader service name the new leader, and no leader where
  -- there is none, whatever they were before.
  pub updated_annotations-NamesLeader :
      (leader : Option Pod) (old : Dict String) (s : State)
      → NamesLeader leader (updated_annotations svc leader old s).0
  unfolding updated_annotations note_switch ◌>>=◌
  updated_annotations-NamesLeader none old s = unset_leader-NamesLeader old
  updated_annotations-NamesLeader (some p) old s =
      elim (Bool-cases (str_eq (get leader_pod_uid_annotation old) p.uid)) [
        | inl e ↦ rw e (set_leader-NamesLeader p old)
        | inr e ↦ rw e (switch_time-NamesLeader (some p) _ _ (set_leader-NamesLeader p old))
      ]

  -- A new leader service carries the annotation that opts in exactly if its source does.
  pub is_enabled-new_leader_service :
      (leader : Option Pod) (name : String) (ports : List ServicePort) (s : State)
      → is_enabled (new_leader_service svc name (new_annotations svc leader s).0 ports)
        ≡ is_enabled svc
  unfolding is_enabled new_leader_service new_annotations set_leader ◌>>=◌
  is_enabled-new_leader_service none name ports s = simp (lookup-filter_git_ops_annotations)
  is_enabled-new_leader_service (some p) name ports s =
      simp (lookup-insert, lookup-filter_git_ops_annotations)
