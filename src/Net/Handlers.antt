-- ===== src/Net/Handlers.antt =====
-- handler_map (lars_reactor/include/handler.h): the handlers of a process, by the numbers of messages.
use lars_study.Prelude.{Option, none, some, ℤ, eqb_ℤ, if◌then◌else◌}

-- `m_handler_map`, for handlers of the type `H`. A process has one.
abbrev pub HandlerMap : Type 0 → Type 0
HandlerMap H = ℤ → Option H

module _ {H : Type 0} where
  abbrev pub no_handlers : HandlerMap H
  no_handlers msgid = none

  unfoldable pub register_handler : ℤ → H → HandlerMap H → HandlerMap H
  register_handler msgid handler m i = if eqb_ℤ i msgid then some handler else m i

  unfoldable pub get_handler : ℤ → HandlerMap H → Option H
  get_handler msgid m = m msgid
