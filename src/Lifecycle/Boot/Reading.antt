-- ===== src/Lifecycle/Boot/Reading.antt =====
-- internal/lifecycle/boot.go: the steps of a boot that only read, whatever it is that is kept.
use nanok8s.Base.{String, ◌<>◌, Bool, true, false, Option, none, some}
use nanok8s.Os.Tree.{Node}
use nanok8s.Os.World.{Error, Result, ok, err, panic}
use nanok8s.Os.Spec.Runs.{
  Keeps, Run-pure, Run-throw, Run-crash, Run-bind, Run-if, Run-wrapped, Keeps-logf, Keeps-attempt,
}
use nanok8s.State.{Json, LastBoot, read_last_boot, last_boot_from, decoded}
use nanok8s.Backup.{boot_id}
use nanok8s.Ostree.{is_ostree, booted_from}
use nanok8s.Lifecycle.{log}
use nanok8s.Lifecycle.Boot.{started, notified}
use nanok8s.Backup.Listing.Reads.{Keeps-stat, Keeps-read_file}

module _ {P : Node → Type 0} where
  pub Keeps-log : (s : String) → Keeps P (log s)
  unfolding log
  Keeps-log s = Keeps-logf _

  pub Keeps-is_ostree : Keeps P is_ostree
  unfolding is_ostree
  Keeps-is_ostree = Run-bind (Keeps-attempt (Keeps-stat _)) from
    where
      from : (r : Result Node) → Keeps P (booted_from r)
      from (ok n) = unfold booted_from in Run-pure true
      from (err e) =
          unfold booted_from in Run-if e.not_exist (λ h. Run-pure false) (λ h. Run-throw _)
      from panic = unfold booted_from in Run-crash

  pub Keeps-boot_id : Keeps P boot_id
  unfolding boot_id
  Keeps-boot_id = Run-bind (Run-wrapped _ (Keeps-read_file _)) λ s. Run-pure _

  pub Keeps-decoded : (json : Json) (s : String) (r : Result LastBoot) → Keeps P (decoded json s r)
  unfolding decoded
  Keeps-decoded json s (ok lb) = Run-pure _
  Keeps-decoded json s (err e) = Run-throw _
  Keeps-decoded json s panic = Run-crash

  pub Keeps-read_last_boot : (json : Json) → Keeps P (read_last_boot json)
  unfolding read_last_boot
  Keeps-read_last_boot json = Run-bind (Keeps-attempt (Keeps-read_file _)) from
    where
      from : (r : Result String) → Keeps P (last_boot_from json r)
      from (ok s) = unfold last_boot_from in Keeps-decoded json _ _
      from (err e) =
          unfold last_boot_from in Run-if e.not_exist (λ h. Run-pure _) (λ h. Run-throw _)
      from panic = unfold last_boot_from in Run-crash

  pub Keeps-started : (out : String) (f : Option Error) → Keeps P (started out f)
  unfolding started
  Keeps-started out none = Keeps-log "kubelet.service queued for start"
  Keeps-started out (some e) = Run-throw _

  pub Keeps-notified : (a : Result Bool) → Keeps P (notified a)
  unfolding notified
  Keeps-notified (ok true) = Keeps-log "sd_notify READY=1 sent"
  Keeps-notified (ok false) = Run-pure tt
  Keeps-notified (err e) = Keeps-log ("sd_notify READY=1 failed (continuing): " <> e.text)
  Keeps-notified panic = Run-crash
