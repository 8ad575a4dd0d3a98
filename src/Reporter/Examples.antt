-- ===== src/Reporter/Examples.antt =====
-- A report of two calls.
use lars_study.Prelude.{
  ◌==◌, ◌<◌, ◌≤◌, ◌+◌, ◌≡◌, refl, true, false, List, [], ◌∷◌, map, none, some, arith, pos, negsuc,
  if◌then◌else◌, leb, Str, codes, decimal,
}
use lars_study.Config.Load.{ConfigFile}
use lars_study.Config.Values.{get_number}
use lars_study.Config.Values.Numbers.{get_number_lem}
use lars_study.Dns.Database.{connect_db}
use lars_study.Reporter.Database.{store_reporter}
use lars_study.Reporter.Database.Ports.{connects, store_reporter-connect_db}
use lars_study.Config.Load.Lines.{Line, header, entry}
use lars_study.Net.TcpServer.{TcpServer}
use lars_study.Net.TcpServer.Settings.{Kernel}
use lars_study.Net.EventLoop.{EventLoop}
use lars_study.Reporter.Store.{ReportStatusRequest, print, insert_format, store}
use lars_study.Reporter.Store.Size.{store_whole}

abbrev report : ReportStatusRequest
report = record {
  modid = pos 1;
  cmdid = negsuc 1;
  caller = pos 123;
  results =
      record { ip = pos 16777343; port = pos 7777; succ = 100; err = 3; overload = true }
      ∷ record { ip = negsuc 0; port = pos 7778; succ = 0; err = 4294967295; overload = false }
      ∷ [];
  ts = 1700000000;
}

store_whole_example : store report ≡ map (λ r. print (insert_format report r)) report.results
store_whole_example = store_whole report (omega arith) (omega arith)

-- What the database is sent.
printed :
    print (
      insert_format report
        (record { ip = negsuc 0; port = pos 7778; succ = 0; err = 4294967295; overload = false }))
    ≡ codes
        "INSERT INTO ServerCallStatus(modid, cmdid, ip, port, caller, succ_cnt, err_cnt, ts, overload) VALUES (1, -2, 4294967295, 7778, 123, 0, 4294967295, 1700000000, 0) ON DUPLICATE KEY UPDATE succ_cnt = 0, err_cnt = 4294967295, ts = 1700000000, overload = 0"
unfolding print lars_study.Prelude.print_int lars_study.Prelude.decimal lars_study.Prelude.to_u32
printed = refl

-- A port of 40000.
abbrev high_port : ConfigFile
high_port = record { map = λ section. some (λ key. some (codes "40000")) }

port_read : get_number high_port (codes "mysql") (codes "db_port") 3306 ≡ 40000
unfolding lars_study.Prelude.decimal
port_read = get_number_lem high_port (codes "mysql") (codes "db_port") 40000 3306 refl

store_reporter-connect_db_example :
    (connect_db (λ settings. true) high_port ≡ connects (λ settings. true) high_port 40000)
    × (40000 < 32768
        → store_reporter (λ settings. true) high_port ≡ connect_db (λ settings. true) high_port)
    × (32768 ≤ 40000
        → store_reporter (λ settings. true) high_port
          ≡ connects (λ settings. true) high_port (40000 + 4294901760))
store_reporter-connect_db_example =
    store_reporter-connect_db (λ settings. true) high_port 40000 port_read (omega arith)

abbrev setting : Str → Str → Line
setting key value = entry [] key (codes " ") (codes " ") value []

-- What lars_reporter/conf/lars_reporter.conf says of the server and of the storing threads.
abbrev file : List Line
file =
    header [] [] (codes "reactor") [] []
    ∷ setting (codes "maxConn") (decimal 1024)
    ∷ setting (codes "threadNum") (decimal 5)
    ∷ setting (codes "ip") (codes "127.0.0.1")
    ∷ setting (codes "port") (decimal 7779)
    ∷ header [] [] (codes "repoter") [] []
    ∷ setting (codes "db_thread_cnt") (decimal 3)
    ∷ []

-- The kernel gives the socket 3, and has only the port 7779 free.
abbrev kernel : Kernel
kernel = record { socket = some 3; bound = λ ip port. port == 7779; listened = true; ctl = true }
