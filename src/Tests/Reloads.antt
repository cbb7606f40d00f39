-- ===== src/Tests/Reloads.antt =====
-- media/js/cometd/ReloadExtension.js: a new page that goes on with an old connection, at fixed inputs.
use vurs.Prelude.{String, true, none, some, List, [], ◌∷◌, ◌++◌, Bool, refl, inl, ok, arith}
use vurs.Value.{obj, item, nil, str, end, get}
use vurs.Registry
use vurs.Registry.Consistent.{empty-IsConsistent, add-IsConsistent}
use vurs.Listeners
use vurs.Client.State.{Client, Envelope, Extension, Host, handshaking, new, return}
use vurs.Client.State
use vurs.Client.Api.{start_handshake}
use vurs.Client.Responses.{action_of}
use vurs.Client.Polls.Quiet.{IsAloof}
use vurs.Client.Polls.Shaking.{IsCalm}
use vurs.Reload
use vurs.Reload.{Reload, reload, age_or_default}
use vurs.Reload.Hooked.{Place, on_outgoing}
use vurs.Reload.Withheld.{both}
use vurs.Reload.Resumed.{Resumes, start_handshake-Resumes}
use vurs.Tests.Clients.{defaults}
use vurs.Tests.Cycles.{advice}
use vurs.Tests.Extensions.{answer, lonely, page, state-IsFaithful}

-- The extension's variables, and what the transport was given to send.
abbrev Page : Type 0
Page = Reload String × List (Envelope × Bool)

abbrev in_page : Place String Page (List (Envelope × Bool))
in_page = record {
  view = λ w. w.0;
  store = λ r w. (r, w.1);
  log = λ w. w.1;
  view-store = λ r w. refl;
  log-store = λ r w. refl;
}

abbrev loaded : Host Page
loaded = record {
  accept = λ version cross_domain w t. true;
  get_type = λ w t. str "long-polling";
  send = λ t e longpoll settings advice w. ((w.0, w.1 ++ (e, longpoll) ∷ []), ok tt);
  complete = λ t request success longpoll settings advice w. (w, ok tt);
  abort = λ t w. (w, ok tt);
  reset = λ t w. (w, ok tt);
  listener = λ scope f m. return tt;
  call = λ scope f. return tt;
  incoming = λ e. none;
  outgoing = λ e. some (on_outgoing in_page lonely);
  extension_registered = λ e n. return tt;
  extension_unregistered = λ e. return tt;
  transport_registered = λ t type w. (w, ok tt);
  transport_unregistered = λ t w. (w, ok tt);
  rounds = 10;
}

loaded-IsAloof : IsAloof loaded (both in_page)
loaded-IsAloof = record {
  listened = λ scope f m s. s.world;
  alone = λ scope f m s. refl;
  same_log = λ scope f m s. refl;
  returns = λ scope f m s h. cc h;
}

loaded-IsCalm : IsCalm loaded (both in_page)
loaded-IsCalm = record { returns = λ t w. refl; same_log = λ t w. refl }

abbrev fresh : Client Page
fresh = record (State.new defaults (Reload.new none (reload lonely page).jar, [])) {
  transports = (Registry.add "long-polling" 0 none Registry.empty).0;
  extensions = record { name = "reload"; extension = 0 } ∷ [];
  advice = advice;
}

start_handshake-Resumes_example :
    Resumes in_page lonely loaded loaded-IsAloof loaded-IsCalm page state-IsFaithful answer
      (item (str "long-polling") nil)
      fresh
      (start_handshake loaded (obj end) fresh)
unfolding State.new get action_of Listeners.empty age_or_default Reload.new
start_handshake-Resumes_example =
    start_handshake-Resumes in_page lonely loaded loaded-IsAloof loaded-IsCalm page state-IsFaithful
      answer (item (str "long-polling") nil) end fresh refl refl refl refl refl refl refl (inl refl)
      (add-IsConsistent "long-polling" 0 none Registry.empty empty-IsConsistent) (λ a. omega arith)
      "reload" 0 (omega arith) refl refl refl (omega arith) refl tt
