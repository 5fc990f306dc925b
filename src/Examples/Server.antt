-- ===== src/Examples/Server.antt =====
-- Requests to an unclaimed worker from somebody who does not know its code (cmd/easyworker/main.go).
use easyworker.Base.{◌≡◌, refl, false, true, List, [], ◌∷◌, Bytes, bytes, bytes_eq, All, cut_prefix}
use easyworker.Auth.Gate.History.{accepts, phase}
use easyworker.Service.Handlers.{Worker}
use easyworker.Server.{
  System, Request, worker, status, claim, release, healthz, call_execute, call_write, call_kill,
  serve_all, serve, handle, worker_response,
}
use easyworker.Server.Sealed.{Ignorant, Denied, Kept, redeems, serve_all_sealed}
use easyworker.Auth.Space.{trim_space}
use easyworker.Auth.Interceptor.{bearer, served}
use easyworker.Enroll.{bearer_of}
use easyworker.Server.Owner.{owner_served}
use easyworker.Examples.Auth.{
  taken, taken-IsValid, Disk, disk, fresh, fresh-IsValid, steady, steady-Fills,
}
use easyworker.Examples.Files.{os, archives, empty_world}
use easyworker.Examples.Files
use easyworker.Examples.Handlers.{pipe}
use easyworker.Examples.Jobs.{manager}

abbrev here : Worker
here = record { root = bytes "/w"; boot_id = bytes "boot" }

abbrev before : System Disk Files.Disk Bytes
before = record { gate = fresh; manager = manager; world = empty_world; pipes = λ id. [] }

abbrev intruder : List Request
intruder =
    worker (bytes "Bearer guess") (call_execute true (bytes "k") (bytes "rm -rf .") 7)
    ∷ claim (bytes "guess") (bytes "eve") 7 8 steady
    ∷ worker [] (call_write (bytes "a") (bytes "x"))
    ∷ worker (bytes "Basic x") (call_kill (bytes "j"))
    ∷ release (bytes "Bearer guess") (bytes "eve") steady
    ∷ status
    ∷ healthz
    ∷ []

wrong_code : redeems (phase fresh) (bytes "guess") ≡ false
unfolding bytes_eq
wrong_code = refl

intruder-Ignorant : All (Ignorant (phase fresh)) intruder
intruder-Ignorant =
    (refl, ((wrong_code, steady-Fills), (refl, (refl, ((refl, steady-Fills), (tt, (tt, tt)))))))

serve_all_sealed_example :
    let (after, answers) =
      serve_all disk os pipe archives (bytes "linux") (bytes "amd64") here intruder before in
    Kept before after × All Denied answers
serve_all_sealed_example =
    serve_all_sealed disk os pipe archives (bytes "linux") (bytes "amd64") here intruder before
      fresh-IsValid intruder-Ignorant

abbrev owned_before : System Disk Files.Disk Bytes
owned_before = record before { gate = taken }

abbrev guesses : List Request
guesses =
    worker (bytes "Bearer guess") (call_kill (bytes "j"))
    ∷ claim (bytes "c0de") (bytes "eve") 7 8 steady
    ∷ release [] (bytes "eve") steady
    ∷ []

not_the_token : accepts (phase taken) (bearer (bytes "Bearer guess")) ≡ false
unfolding bearer bytes_eq cut_prefix trim_space
not_the_token = refl

nothing_shown : accepts (phase taken) (bearer_of []) ≡ false
unfolding bearer_of bytes_eq
nothing_shown = refl

guesses-Ignorant : All (Ignorant (phase taken)) guesses
guesses-Ignorant = (not_the_token, ((refl, steady-Fills), ((nothing_shown, steady-Fills), tt)))

the_token : accepts (phase taken) (bearer (bytes "Bearer t0")) ≡ true
unfolding bearer bytes_eq cut_prefix trim_space
the_token = refl

owner_served_example :
    (serve disk os pipe archives
      (bytes "linux")
      (bytes "amd64")
      here
      (worker (bytes "Bearer t0") (call_kill (bytes "j")))
      (serve_all disk os pipe archives
        (bytes "linux")
        (bytes "amd64")
        here
        guesses
        owned_before).0).1
    ≡ worker_response (
        served
          (handle disk os pipe archives
            (bytes "linux")
            (bytes "amd64")
            here
            (call_kill (bytes "j"))
            owned_before).1)
owner_served_example =
    owner_served disk os pipe archives (bytes "linux") (bytes "amd64") here guesses
      (bytes "Bearer t0") (call_kill (bytes "j")) owned_before taken-IsValid guesses-Ignorant
      the_token
