-- ===== src/Server/QuietServices.antt =====
-- `addService` leaves a dispatch alone.
use budge.Base.{arith, ◌≡◌, refl, Bool, true, false, some, ◌==◌, ltb, Bool-cases, inl, inr}
use budge.Base.Text.{Text, codes}
use budge.Requests.Types.{Service, invalid_service}
use budge.Requests.Environment.{Environment}
use budge.Store.Tables.{Db}
use budge.Store.Relates.{return-Relates, exec-Relates, exec_checked-Relates}
use budge.Server.Lifecycle.{Quiet}
use budge.Server.Growth.{IsGrown, HasKeys, growth, IsGrown-same, IsSpent-same}
use budge.Server.QuietRows.{IsQuiet, cancel_requests-IsQuiet}
use budge.Server.Quiet.{writing}
use budge.Server.Maintenance.{service_id}
use budge.Server.Services.{
  ServiceForm, insert_service, revise_service, next_revision, write_service, cancel_revised,
  save_service, add_service_tx,
}

insert_service-IsGrown :
    (svc : Service) (db db' : Db)
    → HasKeys db
    → insert_service svc db ≡ some db'
    → IsGrown Quiet db db'
unfolding insert_service
insert_service-IsGrown svc db db' k e =
    IsGrown-same Quiet db db' k (ground arith) (IsSpent-same db db' (ground arith))

revise_service-IsGrown :
    (svc : Service) (db : Db) → HasKeys db → IsGrown Quiet db (revise_service svc db)
unfolding revise_service
revise_service-IsGrown svc db k = IsGrown-same Quiet db _ k refl (λ h q. q)

next_revision-IsQuiet : (f : ServiceForm) (revise : Bool) → IsQuiet (next_revision f revise)
next_revision-IsQuiet f false = search (writing)
next_revision-IsQuiet f true = search (writing) depth 8

write_service-IsQuiet : (svc : Service) → IsQuiet (write_service svc)
write_service-IsQuiet svc = elim (Bool-cases (svc.revision == 1)) [
  | inl e ↦
      rw e (exec_checked-Relates (growth Quiet) invalid_service _ (insert_service-IsGrown svc))
  | inr e ↦ rw e (exec-Relates (growth Quiet) invalid_service _ (revise_service-IsGrown svc))
]

cancel_revised-IsQuiet : (env : Environment) (svc : Service) → IsQuiet (cancel_revised env svc)
cancel_revised-IsQuiet env svc = elim (Bool-cases (ltb 1 svc.revision)) [
  | inl e ↦ rw e (cancel_requests-IsQuiet env service_id svc.id (codes "service_revised"))
  | inr e ↦ rw e (return-Relates (growth Quiet) tt)
]

pub save_service-IsQuiet :
    (env : Environment) (owner : Text) (revise : Bool) (svc : Service)
    → IsQuiet (save_service env owner revise svc)
unfolding save_service
save_service-IsQuiet env owner revise svc =
    search (writing, write_service-IsQuiet, cancel_revised-IsQuiet) depth 12

pub add_service_tx-IsQuiet :
    (env : Environment) (owner : Text) (f : ServiceForm) → IsQuiet (add_service_tx env owner f)
unfolding add_service_tx
add_service_tx-IsQuiet env owner f =
    search (writing, next_revision-IsQuiet, save_service-IsQuiet) depth 30
