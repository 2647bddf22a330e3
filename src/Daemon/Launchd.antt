-- ===== src/Daemon/Launchd.antt =====
-- internal/daemon/launchd.go: the service of launchd. What is done is a list of events, and what the
-- system answers is a parameter; the texts of system errors are left out.
use temenos.Base.{
  Bool, not, ◌||◌, Option, none, some, List, [], ◌∷◌, ◌++◌, if◌then◌else◌, Bytes, codes, contains,
  trim_space, Result, ok, err,
}
use temenos.FilePath.{join_path}

pub data LaunchError : Type 0 where
  not_in_path no_home mkdir_failed not_installed write_failed remove_failed no_launchctl :
      LaunchError
  launchctl_failed : Bytes → LaunchError

pub data LaunchEvent : Type 0 where
  launchctl : List Bytes → LaunchEvent
  made_dir removed : Bytes → LaunchEvent
  wrote : Bytes → Bytes → LaunchEvent
  printed : Bytes → LaunchEvent

-- How a call of launchctl fails: it is not there, or it has printed something.
pub data CallError : Type 0 where
  not_found : CallError
  output : Bytes → CallError

-- The answers of the system; `uid` is the number of the user as a text, `escape_text` the function of
-- encoding/xml, and `is_removed` what `os.Remove` says, a missing file included.
pub record LaunchSystem : Type 0 where
  pub look_path : Option Bytes
  pub home : Option Bytes
  pub socket_path : Option Bytes
  pub uid : Bytes
  pub mkdir_all : Bytes → Bool
  pub is_there : Bytes → Bool
  pub is_removed : Bytes → Bool
  pub is_written : Bytes → Bool
  pub call : List Bytes → Result CallError Bytes
  pub escape_text : Bytes → Option Bytes

abbrev pub Run : Type 0
Run = List LaunchEvent × Option LaunchError

abbrev daemon_plist_label : Bytes
daemon_plist_label = codes "io.guion.temenos.daemon"

abbrev plist_path : Bytes → Bytes
unfolding join_path
plist_path home =
    join_path
      (home ∷ codes "Library" ∷ codes "LaunchAgents" ∷ (daemon_plist_label ++ codes ".plist") ∷ [])

-- The events in front of the rest.
abbrev before : List LaunchEvent → Run → Run
before events (more, e) = (events ++ more, e)

abbrev mentions : Bytes → Bytes → Bytes → Bool
unfolding contains
mentions a b text = contains a text || contains b text

-- `xmlEscape`: a text that cannot be escaped stays as it is.
unfoldable pub xml_escape : (Bytes → Option Bytes) → Bytes → Bytes
xml_escape escape_text s = elim (escape_text s) [ none ↦ s | some escaped ↦ escaped ]

-- The text of the property list.
unfoldable pub plist_text : (Bytes → Bytes) → Bytes → Bytes → Bytes → Bytes
plist_text escape home temenos_bin data_dir =
    codes
      "<?xml version=\"1.0\" encoding=\"UTF-8\"?>\n<!DOCTYPE plist PUBLIC \"-//Apple//DTD PLIST 1.0//EN\" \"http://www.apple.com/DTDs/PropertyList-1.0.dtd\">\n<plist version=\"1.0\">\n<dict>\n    <key>Label</key>\n    <string>"
    ++ (daemon_plist_label
        ++ (codes "</string>\n\n    <key>ProgramArguments</key>\n    <array>\n        <string>"
            ++ (escape temenos_bin
                ++ (codes
                      "</string>\n        <string>daemon</string>\n    </array>\n\n    <key>RunAtLoad</key>\n    <true/>\n\n    <key>KeepAlive</key>\n    <true/>\n\n    <key>StandardOutPath</key>\n    <string>"
                    ++ (data_dir
                        ++ (codes
                              "/temenos.stdout.log</string>\n\n    <key>StandardErrorPath</key>\n    <string>"
                            ++ (data_dir
                                ++ (codes
                                      "/temenos.stderr.log</string>\n\n    <key>EnvironmentVariables</key>\n    <dict>\n        <key>PATH</key>\n        <string>/usr/local/bin:/usr/bin:/bin:/opt/homebrew/bin:"
                                    ++ (home
                                        ++ (codes "/.local/bin:"
                                            ++ (home
                                                ++ (codes "/go/bin:"
                                                    ++ (home
                                                        ++ codes
                                                            "/.cargo/bin</string>\n    </dict>\n</dict>\n</plist>\n")))))))))))))

module _ (system : LaunchSystem) where
  abbrev domain : Bytes
  domain = codes "gui/" ++ system.uid

  abbrev target : Bytes
  target = codes "gui/" ++ (system.uid ++ (codes "/" ++ daemon_plist_label))

  abbrev bootout : List Bytes
  bootout = codes "bootout" ∷ target ∷ []

  abbrev bootstrap : Bytes → List Bytes
  bootstrap path = codes "bootstrap" ∷ domain ∷ path ∷ []

  abbrev output_of : CallError → Bytes
  unfolding trim_space
  output_of not_found = []
  output_of (output text) = trim_space text

  -- `installDaemonPlist`; a service that is not loaded yet is no error.
  unfoldable pub install_daemon_plist : Bytes → Bytes → Bytes → Run
  unfolding plist_text plist_path output_of xml_escape
  install_daemon_plist home temenos_bin data_dir =
      let path = plist_path home in
      let written : List LaunchEvent =
        launchctl bootout
        ∷ wrote path (plist_text (xml_escape system.escape_text) home temenos_bin data_dir)
        ∷ [] in
      if not (system.is_written path)
      then (launchctl bootout ∷ [], some write_failed)
      else before written (elim (system.call (bootstrap path)) [
        | err e ↦ (launchctl (bootstrap path) ∷ [], some (launchctl_failed (output_of e)))
        | ok _ ↦ (
          launchctl (bootstrap path)
              ∷ printed (codes "Daemon plist installed: " ++ (path ++ codes "\n"))
              ∷ printed (codes "Logs: " ++ (data_dir ++ codes "/temenos.stdout.log\n"))
              ∷ [],
          none,
        )
      ])

  -- `Install`
  unfoldable pub install : Run
  unfolding install_daemon_plist join_path
  install = elim system.look_path [
    | none ↦ ([], some not_in_path)
    | some temenos_bin ↦ elim system.home [
      | none ↦ ([], some no_home)
      | some home ↦
          let data_dir = join_path (home ∷ codes ".temenos" ∷ []) in
          if not (system.mkdir_all data_dir)
          then ([], some mkdir_failed)
          else before (made_dir data_dir ∷ []) (install_daemon_plist home temenos_bin data_dir)
    ]
  ]

  -- The end of `Uninstall`; an error of the removal of the socket is ignored.
  abbrev uninstalled : Run
  uninstalled =
      let done = printed (codes "Daemon uninstalled. Logs preserved.\n") in
      elim system.socket_path [
        | none ↦ (done ∷ [], none)
        | some path ↦ (removed path ∷ done ∷ [], none)
      ]

  -- `Uninstall`
  unfoldable pub uninstall : Run
  unfolding plist_path
  uninstall = elim system.home [
    | none ↦ ([], some no_home)
    | some home ↦
        let path = plist_path home in
        if not (system.is_there path)
        then before (printed (codes "Daemon plist: not installed\n") ∷ []) uninstalled
        else if not (system.is_removed path)
        then (launchctl bootout ∷ [], some remove_failed)
        else before
            (launchctl bootout
              ∷ removed path
              ∷ printed (codes "Removed daemon plist: " ++ (path ++ codes "\n"))
              ∷ [])
            uninstalled
  ]

  -- A call whose failure is none if its output says that there is nothing to do.
  abbrev tolerant : List Bytes → Bytes → Bytes → Bytes → Bytes → Run
  unfolding mentions output_of
  tolerant args a b idle done = elim (system.call args) [
    | ok _ ↦ (launchctl args ∷ printed done ∷ [], none)
    | err e ↦
        if mentions a b (output_of e)
        then (launchctl args ∷ printed idle ∷ [], none)
        else (launchctl args ∷ [], some (launchctl_failed (output_of e)))
  ]

  -- `Start`
  unfoldable pub start : Run
  unfolding plist_path tolerant
  start = elim system.home [
    | none ↦ ([], some no_home)
    | some home ↦
        if not (system.is_there (plist_path home))
        then ([], some not_installed)
        else tolerant (bootstrap (plist_path home)) (codes "already bootstrapped") (codes "36:")
            (codes "Daemon already running\n") (codes "Daemon started\n")
  ]

  -- `Stop`
  unfoldable pub stop : Run
  unfolding tolerant
  stop =
      tolerant bootout (codes "No such process") (codes "3:") (codes "Daemon not running\n")
        (codes "Daemon stopped\n")

  -- `Restart`
  unfoldable pub restart : Run
  unfolding output_of
  restart =
      let args = codes "kickstart" ∷ codes "-k" ∷ target ∷ [] in
      elim (system.call args) [
        | ok _ ↦ (launchctl args ∷ [], none)
        | err e ↦ (launchctl args ∷ [], some (launchctl_failed (output_of e)))
      ]

  -- `Status`
  unfoldable pub status : Run
  unfolding mentions output_of trim_space
  status =
      let args = codes "list" ∷ daemon_plist_label ∷ [] in
      elim (system.call args) [
        | ok text ↦ (
          launchctl args
              ∷ printed (codes "Daemon running:\n" ++ (trim_space text ++ codes "\n"))
              ∷ [],
          none,
        )
        | err not_found ↦ (launchctl args ∷ [], some no_launchctl)
        | err (output text) ↦
            if mentions (codes "Could not find service") (codes "113:") (trim_space text)
            then (
              launchctl args
                  ∷ printed (
                      codes "Daemon not running (label: "
                      ++ (daemon_plist_label ++ (codes ", uid: " ++ (system.uid ++ codes ")\n"))))
                  ∷ [],
              none,
            )
            else (launchctl args ∷ [], some (launchctl_failed (trim_space text)))
      ]
