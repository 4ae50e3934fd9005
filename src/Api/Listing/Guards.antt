-- ===== src/Api/Listing/Guards.antt =====
-- Who reads, cancels and archives a job through `handleJobByID` of internal/api/server.go.
use splai.Base.{
  subst, String, ◌≡◌, refl, not, some, List, [], ◌∷◌, arith, str_eq, is_empty, if_intro,
  option_intro, inl, inr, ◌⊎◌, trim_prefix, split,
}
use splai.State.{Time, JobRecord}
use splai.Scheduler.Workers.{get_job_view}
use splai.Auth.{Principal, Request}
use splai.Api.Messages.{Response}
use splai.Api.Server.{Server, passed, require_tenant_action, with_access}
use splai.Api.Server.Checks.{
  IsRefusal, RefusesWell, require_tenant_action-RefusesWell, with_access_intro,
}
use splai.Api.Listing.{job_subresource, job_request, job_path, handle_job_by_id}

abbrev first_part : List String → String
first_part [] = ""
first_part (id ∷ parts) = id

-- the job that the path of a request names
abbrev pub job_id_of : Request → String
job_id_of r = first_part (split "/" (trim_prefix r.url_path "/v1/jobs/"))

module _ (now : Time) (r : Request) (s : Server) where
  -- the caller may do this with a job that is stored
  pub record May (id action : String) : Type 0 where
    pub job : JobRecord
    pub principal : Principal
    pub stored : get_job_view id s.engine ≡ some job
    pub allowed : require_tenant_action s r job.tenant action ≡ passed principal

  abbrev pub IsGuarded : String → Server × Response → Type 0
  IsGuarded id (s', a) =
      ((s' ≡ s) ⊎ (May id "read" × May id "cancel")) × (a.status ≡ 200 → May id "read")

  refusal-IsGuarded : (id : String) (a : Response) → IsRefusal a → IsGuarded id (s, a)
  refusal-IsGuarded id a h =
      (inl refl, λ e. absurd (elim h [ inl u ↦ omega (arith, u, e) | inr f ↦ omega (arith, f, e) ]))

  module _ (id : String) (job : JobRecord) (stored : get_job_view id s.engine ≡ some job)
      (read : May id "read") where
    job_subresource-IsGuarded : (sub : String) → IsGuarded id (job_subresource now r id sub job s)
    unfolding job_subresource
    job_subresource-IsGuarded sub =
        if_intro (IsGuarded id) (str_eq sub "stream") (λ h. (inl refl, λ e. read))
          λ not_stream.
            if_intro (IsGuarded id) (str_eq sub "tasks") (λ h. (inl refl, λ e. read))
              λ not_tasks.
                if_intro (IsGuarded id) (str_eq sub "archive")
                  (λ archive.
                    if_intro (IsGuarded id) (not (str_eq r.method "POST"))
                      (λ h. (inl refl, λ e. read)) λ post. cancels _)
                  λ not_archive.
                    if_intro (IsGuarded id) (not (is_empty sub)) (λ h. (inl refl, λ e. read))
                      λ whole.
                        if_intro (IsGuarded id) (str_eq r.method "GET") (λ h. (inl refl, λ e. read))
                          λ not_get.
                            if_intro (IsGuarded id) (str_eq r.method "DELETE") (λ h. cancels _)
                              λ other. (inl refl, λ e. read)
      where
        cancels :
            (go : Principal → Server × Response)
            → IsGuarded id (with_access s (require_tenant_action s r job.tenant "cancel") go)
        cancels go =
            with_access_intro (IsGuarded id) s (require_tenant_action s r job.tenant "cancel")
              (λ a h. (inl refl, λ e. read))
              λ p h. (
                inr (read, record { job = job; principal = p; stored = stored; allowed = h }),
                λ e. read,
              )

  job_request-IsGuarded : (id sub : String) → IsGuarded id (job_request now r id sub s)
  unfolding job_request
  job_request-IsGuarded id sub =
      option_intro (IsGuarded id) (get_job_view id s.engine)
        (λ h. (inl refl, λ e. ground (arith, e)))
        λ job stored.
          with_access_intro (IsGuarded id) s (require_tenant_action s r job.tenant "read")
            (λ a h.
              refusal-IsGuarded id a
                (subst RefusesWell h (require_tenant_action-RefusesWell s r job.tenant "read")))
            λ p h.
              job_subresource-IsGuarded id job stored
                (record { job = job; principal = p; stored = stored; allowed = h }) sub

  job_path-IsGuarded : (parts : List String) → IsGuarded (first_part parts) (job_path now r parts s)
  unfolding job_path
  job_path-IsGuarded [] = job_request-IsGuarded "" ""
  job_path-IsGuarded (id ∷ []) = job_request-IsGuarded id ""
  job_path-IsGuarded (id ∷ sub ∷ rest) = job_request-IsGuarded id sub

  -- Whatever is asked of a job: the answer is 200 only if the job that the path names is stored and the
  -- caller may read in its tenant; and the server changes only if the caller may cancel there, too.
  pub handle_job_by_id-IsGuarded : IsGuarded (job_id_of r) (handle_job_by_id now r s)
  unfolding handle_job_by_id
  handle_job_by_id-IsGuarded =
      if_intro (IsGuarded (job_id_of r)) (is_empty (trim_prefix r.url_path "/v1/jobs/"))
        (λ h. (inl refl, λ e. ground (arith, e)))
        λ h. job_path-IsGuarded (split "/" (trim_prefix r.url_path "/v1/jobs/"))
