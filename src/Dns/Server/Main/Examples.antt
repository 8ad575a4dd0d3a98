-- ===== src/Dns/Server/Main/Examples.antt =====
-- The service with five threads and one host in its database.
use lars_study.Prelude.{◌==◌, true, List, [], ◌∷◌, some, pos, Str, codes, decimal}
use lars_study.Config.Load.Lines.{Line, header, entry}
use lars_study.Net.TcpServer.{TcpServer}
use lars_study.Net.TcpServer.Settings.{Kernel}
use lars_study.Net.EventLoop.{EventLoop}
use lars_study.Dns.Route.{Route, Row}

abbrev setting : Str → Str → Line
setting key value = entry [] key (codes " ") (codes " ") value []

abbrev file : List Line
file =
    header [] [] (codes "reactor") [] []
    ∷ setting (codes "maxConn") (decimal 1024)
    ∷ setting (codes "threadNum") (decimal 5)
    ∷ setting (codes "ip") (codes "127.0.0.1")
    ∷ setting (codes "port") (decimal 7778)
    ∷ []

abbrev row : Row
row = record { modid = pos 1; cmdid = pos 2; ip = pos 2130706433; port = pos 7777 }

-- The kernel gives the socket 3, and has only the port 7778 free.
abbrev kernel : Kernel
kernel = record { socket = some 3; bound = λ ip port. port == 7778; listened = true; ctl = true }
